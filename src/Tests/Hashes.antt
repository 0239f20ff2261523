-- ===== src/Tests/Hashes.antt =====
-- Runs of src/lhash.c.
use boggart.Base.{ℕ, ◌≡◌, refl, List, [], ◌∷◌, replicate}
use boggart.Hash.{sha256_portable, l_sha256_portable}
use boggart.Hash.Spec.{sha256}
use boggart.Hash.Padded.{sha256_portable-eq}

-- "abc"
abbrev abc : List ℕ
abc = 97 ∷ 98 ∷ 99 ∷ []

abbrev abc_hex : List ℕ
abc_hex =
    98 ∷ 97 ∷ 55 ∷ 56 ∷ 49 ∷ 54 ∷ 98 ∷ 102 ∷ 56 ∷ 102 ∷ 48 ∷ 49 ∷ 99 ∷ 102 ∷ 101 ∷ 97 ∷ 52 ∷ 49 ∷ 52
    ∷ 49 ∷ 52 ∷ 48 ∷ 100 ∷ 101 ∷ 53 ∷ 100 ∷ 97 ∷ 101 ∷ 50 ∷ 50 ∷ 50 ∷ 51 ∷ 98 ∷ 48 ∷ 48 ∷ 51 ∷ 54
    ∷ 49 ∷ 97 ∷ 51 ∷ 57 ∷ 54 ∷ 49 ∷ 55 ∷ 55 ∷ 97 ∷ 57 ∷ 99 ∷ 98 ∷ 52 ∷ 49 ∷ 48 ∷ 102 ∷ 102 ∷ 54 ∷ 49
    ∷ 102 ∷ 50 ∷ 48 ∷ 48 ∷ 49 ∷ 53 ∷ 97 ∷ 100 ∷ []

abc_digest : l_sha256_portable abc ≡ abc_hex
unfolding l_sha256_portable
abc_digest = refl

-- A message whose length does not fit in its last block any more
abbrev sixty : List ℕ
sixty = replicate 60 97

abbrev sixty_hex : List ℕ
sixty_hex =
    49 ∷ 49 ∷ 101 ∷ 101 ∷ 51 ∷ 57 ∷ 49 ∷ 50 ∷ 49 ∷ 49 ∷ 99 ∷ 54 ∷ 50 ∷ 53 ∷ 54 ∷ 52 ∷ 54 ∷ 48 ∷ 98
    ∷ 54 ∷ 101 ∷ 100 ∷ 51 ∷ 55 ∷ 53 ∷ 57 ∷ 53 ∷ 55 ∷ 102 ∷ 97 ∷ 100 ∷ 100 ∷ 56 ∷ 48 ∷ 54 ∷ 49 ∷ 99
    ∷ 97 ∷ 102 ∷ 98 ∷ 98 ∷ 51 ∷ 49 ∷ 100 ∷ 97 ∷ 102 ∷ 57 ∷ 54 ∷ 55 ∷ 100 ∷ 98 ∷ 56 ∷ 55 ∷ 53 ∷ 97
    ∷ 101 ∷ 98 ∷ 100 ∷ 53 ∷ 97 ∷ 97 ∷ 97 ∷ 100 ∷ 52 ∷ []

sixty_digest : l_sha256_portable sixty ≡ sixty_hex
unfolding l_sha256_portable
sixty_digest = refl

sha256_portable-eq_example : sha256_portable sixty ≡ sha256 sixty
sha256_portable-eq_example = sha256_portable-eq sixty
