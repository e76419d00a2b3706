-- ===== src/Domain/AccessToken/Examples.antt =====
-- A token of thirty-two characters.
use stackchan_atoms3r.Base.{true, ◌≡◌, ◌↔◌, length, Bytes, IsBytes, codes, arith}
use stackchan_atoms3r.Domain.AccessToken.{token_length, from_text, matches}
use stackchan_atoms3r.Domain.AccessToken.Matching.{matches-from_text}

abbrev token_text : Bytes
token_text = codes "0123456789ABCDEFGHJKMNPQRSTVWXYZ"

token_text-IsBytes : IsBytes token_text
token_text-IsBytes = (
  omega arith,
  (
    omega arith,
    (
      omega arith,
      (
        omega arith,
        (
          omega arith,
          (
            omega arith,
            (
              omega arith,
              (
                omega arith,
                (
                  omega arith,
                  (
                    omega arith,
                    (
                      omega arith,
                      (
                        omega arith,
                        (
                          omega arith,
                          (
                            omega arith,
                            (
                              omega arith,
                              (
                                omega arith,
                                (
                                  omega arith,
                                  (
                                    omega arith,
                                    (
                                      omega arith,
                                      (
                                        omega arith,
                                        (
                                          omega arith,
                                          (
                                            omega arith,
                                            (
                                              omega arith,
                                              (
                                                omega arith,
                                                (
                                                  omega arith,
                                                  (
                                                    omega arith,
                                                    (
                                                      omega arith,
                                                      (
                                                        omega arith,
                                                        (
                                                          omega arith,
                                                          (
                                                            omega arith,
                                                            (omega arith, (omega arith, tt)),
                                                          ),
                                                        ),
                                                      ),
                                                    ),
                                                  ),
                                                ),
                                              ),
                                            ),
                                          ),
                                        ),
                                      ),
                                    ),
                                  ),
                                ),
                              ),
                            ),
                          ),
                        ),
                      ),
                    ),
                  ),
                ),
              ),
            ),
          ),
        ),
      ),
    ),
  ),
)

matches-from_text_example :
    (matches (from_text token_text) token_text ≡ true)
    ↔ ((length token_text ≡ token_length) × (token_text ≡ token_text))
matches-from_text_example =
    matches-from_text token_text token_text token_text-IsBytes token_text-IsBytes
