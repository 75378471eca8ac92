-- ===== src/Ext4/Tests/Paths.antt =====
-- Runs on paths and modes.
use spotlight.Base.{ℕ, zero, suc, ◌≡◌, ◌<◌, get_or, replicate, arith, refl, ap}
use spotlight.Base.Result.{out_of_fuel}
use spotlight.Ext4.Path.{ends_token, token_len_from}
use spotlight.Ext4.Path.Token.{token_len_from-endless}

get_or-replicate : (n i c : ℕ) → i < n → get_or (replicate n c) i 0 ≡ c
get_or-replicate zero i c h = absurd (omega arith)
get_or-replicate (suc n) zero c h = refl
get_or-replicate (suc n) (suc i) c h = get_or-replicate n i c (omega arith)

token_len_from-endless_example : token_len_from 1000 (replicate 300 97) 0 ≡ out_of_fuel
token_len_from-endless_example =
    token_len_from-endless 1000 (replicate 300 97) 0
      (λ i h. ap ends_token (get_or-replicate 300 i 97 (omega arith))) (omega arith)
