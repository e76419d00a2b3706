-- ===== src/App/PlaybackStager/Examples.antt =====
-- Two sentences with a stage of two samples, and a clock that wraps.
use stackchan_atoms3r.Base.{List, [], ◌∷◌}
use stackchan_atoms3r.Domain.Expression.{happy, sad}
use stackchan_atoms3r.App.PlaybackStager.Sentences.{Arrival, sentence, audio}

abbrev two_sentences : List Arrival
two_sentences =
    sentence 10 happy ∷ audio 20 (1 ∷ 2 ∷ 3 ∷ []) ∷ sentence 30 sad ∷ audio 40 (4 ∷ []) ∷ []
