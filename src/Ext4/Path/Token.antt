-- ===== src/Ext4/Path/Token.antt =====
-- The length of a token of a path.
use spotlight.Base.{
  ℕ, zero, suc, ◌+◌, ◌^◌, ◌≡◌, ◌<◌, true, false, List, get_or, u8, arith, refl, ap, ◌∙◌, sym, subst,
}
use spotlight.Base.Result.{ok, out_of_fuel}
use spotlight.Ext4.Path.{ends_token, token_len_from, get_path_token_len}

token_len_from-count :
    (fuel : ℕ) (path : List ℕ) (len n : ℕ)
    → ((i : ℕ) → i < n → ends_token (get_or path (len + i) 0) ≡ false)
    → ends_token (get_or path (len + n) 0) ≡ true
    → len + n < 2 ^ 8
    → n < fuel
    → token_len_from fuel path len ≡ ok (len + n)
unfolding token_len_from
token_len_from-count zero path len n inner outer narrow enough = absurd (omega arith)
token_len_from-count (suc fuel) path len zero inner outer narrow enough =
    let here : len + 0 ≡ len = omega arith in
    rw (token_len_from, subst (λ k. ends_token (get_or path k 0) ≡ true) here outer)
      (ap ok (sym here))
token_len_from-count (suc fuel) path len (suc n) inner outer narrow enough =
    let here : len + 0 ≡ len = omega arith in
    let next : u8 (len + 1) ≡ len + 1 = omega arith in
    let there : (i : ℕ) → len + suc i ≡ len + 1 + i = λ i. omega arith in
    rw
      (
        token_len_from,
        subst (λ k. ends_token (get_or path k 0) ≡ false) here (inner 0 (omega arith)),
        next,
      )
      (token_len_from-count fuel path (len + 1) n
          (λ i l.
            subst (λ k. ends_token (get_or path k 0) ≡ false) (there i)
              (inner (suc i) (omega arith)))
          (subst (λ k. ends_token (get_or path k 0) ≡ true) (there n) outer) (omega arith)
          (omega arith)
        ∙ ap ok (sym (there n)))

-- If the first n bytes of a path, n below 256, are neither a slash nor the terminating zero, and
-- byte n is one of the two, then the length of its first token is n.
pub get_path_token_len-count :
    (path : List ℕ) (n : ℕ)
    → ((i : ℕ) → i < n → ends_token (get_or path i 0) ≡ false)
    → ends_token (get_or path n 0) ≡ true
    → n < 2 ^ 8
    → get_path_token_len path ≡ ok n
unfolding get_path_token_len
get_path_token_len-count path n inner outer narrow =
    let at : (i : ℕ) → i ≡ 0 + i = λ i. omega arith in
    token_len_from-count 256 path 0 n
      (λ i l. subst (λ k. ends_token (get_or path k 0) ≡ false) (at i) (inner i l))
      (subst (λ k. ends_token (get_or path k 0) ≡ true) (at n) outer) (omega arith) (omega arith)
    ∙ ap ok (sym (at n))

-- If none of the first 256 bytes of a path is a slash or the terminating zero, the loop over the
-- token does not end, whatever the fuel and from whatever position below 256 on: the counter of 8
-- bits goes round.
pub token_len_from-endless :
    (fuel : ℕ) (path : List ℕ) (len : ℕ)
    → ((i : ℕ) → i < 2 ^ 8 → ends_token (get_or path i 0) ≡ false)
    → len < 2 ^ 8
    → token_len_from fuel path len ≡ out_of_fuel
unfolding token_len_from
token_len_from-endless zero path len long narrow = refl
token_len_from-endless (suc fuel) path len long narrow =
    rw (token_len_from, long len narrow)
      (token_len_from-endless fuel path (u8 (len + 1)) long (omega arith))
