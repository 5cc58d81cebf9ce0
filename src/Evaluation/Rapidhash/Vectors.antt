-- ===== src/Evaluation/Rapidhash/Vectors.antt =====
-- The vectors of configdirector-server-sdk/tests/evaluation/test_rapidhash.py, one for each branch.
use python_server_sdk.Base.{◌≡◌, refl, List, [], ◌∷◌, ℕ, zero, suc, codes}
use python_server_sdk.Evaluation.Rapidhash.{rapidhash}

abbrev test_seed : ℕ
test_seed = 0x397832987

abbrev replicate : ℕ → ℕ → List ℕ
replicate zero x = []
replicate (suc n) x = x ∷ replicate n x

three_bytes : rapidhash (codes "abc") test_seed ≡ 8205525400821834274
unfolding rapidhash
three_bytes = refl

five_bytes : rapidhash (codes "abcde") test_seed ≡ 17182111687207956362
unfolding rapidhash
five_bytes = refl

nine_bytes : rapidhash (codes "abcdefghi") test_seed ≡ 9324307379318471710
unfolding rapidhash
nine_bytes = refl

forty_eight_bytes : rapidhash (replicate 48 b'x') test_seed ≡ 1185046273860983588
unfolding rapidhash
forty_eight_bytes = refl

one_block_less : rapidhash (replicate 112 b'y') test_seed ≡ 5679430438346846087
unfolding rapidhash
one_block_less = refl

one_block : rapidhash (replicate 113 b'z') test_seed ≡ 14103938338420400619
unfolding rapidhash
one_block = refl

two_blocks : rapidhash (replicate 240 b'w') test_seed ≡ 15088383192705595115
unfolding rapidhash
two_blocks = refl
