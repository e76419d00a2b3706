-- ===== src/Domain/Speech/Examples.antt =====
-- A marker that is cut between two deltas, a short sentence, and Japanese text.
use stackchan_atoms3r.Base.{List, [], ◌∷◌, ◌++◌, some, ◌≡◌, refl, ◌-◌, Bytes, codes, All, arith}
use stackchan_atoms3r.Domain.Expression.{happy, to_string}
use stackchan_atoms3r.Domain.Speech.{segmenter, emit, put_all, feed, flush}
use stackchan_atoms3r.Domain.Speech.Split.{feed-feed}
use stackchan_atoms3r.Domain.Speech.Queue.{Sentence, Waiting}
use stackchan_atoms3r.Domain.Speech.Bounds.{Within, feed-Within, segmenter-IsValid}
use stackchan_atoms3r.Domain.Speech.Utf8.{scan, scan_byte}
use stackchan_atoms3r.Domain.Speech.Whole.{Whole}
use stackchan_atoms3r.Domain.Speech.Whole.Stream.{flush-feed}
use stackchan_atoms3r.Domain.Speech.Markers.{put_all-marker}
use stackchan_atoms3r.Domain.Speech.Contents.{Says, put_all-Says}

feed-feed_example :
    feed (feed (segmenter 60) (codes "[hap")) (codes "py]Hello.")
    ≡ feed (segmenter 60) (codes "[hap" ++ codes "py]Hello.")
unfolding segmenter
feed-feed_example = feed-feed (segmenter 60) (codes "[hap") (codes "py]Hello.") (omega arith)

-- An emoticon of four bytes, and a full stop of three.
abbrev wide_text : Bytes
wide_text = 0xF0 ∷ 0x9F ∷ 0x98 ∷ 0x80 ∷ 0xE3 ∷ 0x80 ∷ 0x82 ∷ codes " Yes."

wide_text-scan : scan 0 wide_text ≡ some 0
unfolding scan scan_byte
wide_text-scan = refl

flush-feed_example :
    (es : List Sentence) × Waiting (flush (feed (segmenter 8) wide_text)) es × All Whole es
flush-feed_example = flush-feed 8 wide_text wide_text-scan

feed-Within_example : Within 60 (60 - 1) (feed (segmenter 60) (codes "[happy]Hi."))
unfolding segmenter
feed-Within_example = feed-Within 60 (segmenter 60) (codes "[happy]Hi.") (segmenter-IsValid 60)

put_all-marker_example :
    put_all (segmenter 60) (b'[' ∷ (to_string happy ++ b']' ∷ []))
    ≡ record (emit (segmenter 60)) { expression = happy }
unfolding segmenter
put_all-marker_example = put_all-marker (segmenter 60) happy (refl, refl)

put_all-Says_example : Says (segmenter 60) (put_all (segmenter 60) (codes "Hi!")) (codes "Hi!")
unfolding segmenter
put_all-Says_example =
    put_all-Says (segmenter 60) (codes "Hi!") refl
      ((refl, refl), ((refl, refl), ((refl, refl), tt)))
