-- ===== src/Message/Symbol.antt =====
-- The text of a symbol: `symbol_str` of crates/shmbus/src/message.rs.
use mathlib.Core.Option
use dummy_benchmark.Base.{
  ℕ, zero, suc, ◌-◌, ◌≤◌, ◌<◌, ◌≡◌, ◌≢◌, refl, ap, ◌∙◌, true, none, some, [], ◌∷◌, ◌++◌, arith,
  length, take, replicate, All, if_elim, dec_lt, Option-cases, inl, inr, length-take,
}
use mathlib.Core.List.{append-nil}
use dummy_benchmark.Base.Bytes.{Bytes, take-append_left, take_all}
use dummy_benchmark.Message.{symbol_len, nul_position, is_utf8, utf8_rest, utf8_lead, symbol_str}

abbrev pub HasNoNul : Bytes → Type 0
HasNoNul bytes = All (λ b. b ≢ 0) bytes

nul_position-some : (bytes : Bytes) (i : ℕ) → nul_position bytes ≡ some i → HasNoNul (take i bytes)
unfolding nul_position
nul_position-some [] zero h = tt
nul_position-some [] (suc i) h = tt
nul_position-some (b ∷ bytes) zero h = tt
nul_position-some (b ∷ bytes) (suc i) h = elim (Option-cases (nul_position bytes)) [
  | inl e ↦ let no : ⊥ = ground arith in absurd no
  | inr (j, e) ↦ (λ z. ground arith, nul_position-some bytes i (ground arith))
]

nul_position-none : (bytes : Bytes) → nul_position bytes ≡ none → HasNoNul bytes
unfolding nul_position
nul_position-none [] h = tt
nul_position-none (b ∷ bytes) h = elim (Option-cases (nul_position bytes)) [
  | inl e ↦ (λ z. ground arith, nul_position-none bytes e)
  | inr (j, e) ↦ let no : ⊥ = ground arith in absurd no
]

HasNoNul-take : (n : ℕ) (bytes : Bytes) → HasNoNul bytes → HasNoNul (take n bytes)
HasNoNul-take zero bytes h = tt
HasNoNul-take (suc n) [] h = tt
HasNoNul-take (suc n) (b ∷ bytes) h = (h.0, HasNoNul-take n bytes h.1)

nul_position-absent : (bytes : Bytes) → HasNoNul bytes → nul_position bytes ≡ none
unfolding nul_position
nul_position-absent [] h = refl
nul_position-absent (b ∷ bytes) h = ground (arith, nul_position-absent bytes h.1)

nul_position-append :
    (bytes rest : Bytes) → HasNoNul bytes → nul_position (bytes ++ 0 ∷ rest) ≡ some (length bytes)
unfolding nul_position
nul_position-append [] rest h = refl
nul_position-append (b ∷ bytes) rest h = ground (arith, nul_position-append bytes rest h.1)

-- Valid UTF-8 without a NUL, of at most 8 bytes.
abbrev pub IsText : Bytes → Type 0
IsText s = (is_utf8 s ≡ true) × HasNoNul s × (length s ≤ symbol_len)

-- What a symbol is shown as is valid UTF-8 without a NUL, of at most 8 bytes, whatever 8 bytes the
-- message holds.
pub symbol_str-IsText : (symbol : Bytes) → length symbol ≡ symbol_len → IsText (symbol_str symbol)
unfolding symbol_str is_utf8 utf8_rest utf8_lead
symbol_str-IsText symbol len =
    if_elim IsText (is_utf8 front) {x = front} {y = b'?' ∷ []}
      (λ valid. (valid, no_nul, omega (arith, length-take end symbol, len)))
      (λ _. (refl, (λ z. ground arith, tt), omega arith))
  where
    end : ℕ
    end = Option.get_or (nul_position symbol) symbol_len

    front : Bytes
    front = take end symbol

    no_nul : HasNoNul front
    no_nul = elim (Option-cases (nul_position symbol)) [
      | inl e ↦ HasNoNul-take end symbol (nul_position-none symbol e)
      | inr (i, e) ↦ rw e (nul_position-some symbol i e)
    ]

pad_cons : (n : ℕ) → 0 < n → (m : ℕ) × (◌≡◌ {A = Bytes} (replicate n 0) (0 ∷ replicate m 0))
pad_cons zero h = absurd (omega arith)
pad_cons (suc n) h = (n, refl)

-- A text that fits is what its packed symbol shows.
pub symbol_str-padded :
    (bytes : Bytes)
    → HasNoNul bytes
    → length bytes ≤ symbol_len
    → is_utf8 bytes ≡ true
    → symbol_str (bytes ++ replicate (symbol_len - length bytes) 0) ≡ bytes
unfolding symbol_str
symbol_str-padded bytes no_nul fits text = elim (dec_lt (length bytes) symbol_len) [
  | yes short ↦
      let (n, e) = pad_cons (symbol_len - length bytes) (omega arith) in
      rw
        (
          e,
          nul_position-append bytes (replicate n 0) no_nul,
          take-append_left bytes (0 ∷ replicate n 0),
          text,
        )
        refl
  | no long ↦
      let none_left : symbol_len - length bytes ≡ 0 = omega arith in
      let len : symbol_len ≡ length bytes = omega arith in
      let all : take symbol_len bytes ≡ bytes = ap (λ n. take n bytes) len ∙ take_all bytes in
      rw (none_left, append-nil bytes, nul_position-absent bytes no_nul, all, text) refl
]
