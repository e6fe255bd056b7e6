-- ===== src/Plugins/Channel.antt =====
-- A buffered Go channel of the plugins: a send on a closed one and a second `close` panic, `none`.
use fin_guard.Prelude.{
  ℕ, Option, none, some, List, [], ◌∷◌, ◌++◌, ◌≡◌, refl, sym, ap, ◌∙◌, Bool, Bool-cases, inl, inr,
  zero, suc, length-append, true, false, if◌then◌else◌, ltb, ◌≤◌, length, take, arith, append_assoc,
}

pub record Channel (A : Type 0) : Type 0 where
  pub buffer : List A
  pub closed : Bool

module _ {A : Type 0} where
  -- `make(chan A, n)`
  abbrev pub new_channel : Channel A
  new_channel = record { buffer = []; closed = false }

  -- `select { case ch <- x: default: }`
  unfoldable pub try_send : ℕ → A → Channel A → Option (Channel A)
  try_send capacity x ch =
      if ch.closed
      then none
      else if ltb (length ch.buffer) capacity
      then some (record ch { buffer = ch.buffer ++ x ∷ [] })
      else some ch

  -- `close(ch)`
  unfoldable pub close : Channel A → Option (Channel A)
  close ch = if ch.closed then none else some (record ch { closed = true })

  -- The buffer after an attempt to send.
  abbrev pub offered : ℕ → A → List A → List A
  offered n x xs = if ltb (length xs) n then xs ++ x ∷ [] else xs

  pub try_send_open :
      (n : ℕ) (x : A) (ch : Channel A)
      → ch.closed ≡ false
      → try_send n x ch ≡ some (record ch { buffer = offered n x ch.buffer })
  unfolding try_send
  try_send_open n x ch h = ground arith

  pub length-offered_le :
      (n : ℕ) (x : A) (xs : List A) → length xs ≤ n → length (offered n x xs) ≤ n
  length-offered_le n x xs h = ground (arith, length-append xs (x ∷ []))

  pub take_short : (n : ℕ) (xs : List A) → length xs ≤ n → take n xs ≡ xs
  take_short zero [] h = refl
  take_short zero (x ∷ xs) h = absurd (omega arith)
  take_short (suc n) [] h = refl
  take_short (suc n) (x ∷ xs) h = ap (λ ys. x ∷ ys) (take_short n xs (omega arith))

  take_full : (n : ℕ) (xs ys : List A) → length xs ≡ n → take n (xs ++ ys) ≡ xs
  take_full zero [] ys h = refl
  take_full zero (x ∷ xs) ys h = absurd (omega arith)
  take_full (suc n) [] ys h = absurd (omega arith)
  take_full (suc n) (x ∷ xs) ys h = ap (λ zs. x ∷ zs) (take_full n xs ys (omega arith))

  -- What a buffer takes of a sequence, where the first of it is offered first.
  pub take-offered :
      (n : ℕ) (x : A) (xs ys : List A)
      → length xs ≤ n
      → take n (offered n x xs ++ ys) ≡ take n (xs ++ x ∷ ys)
  take-offered n x xs ys h = elim (Bool-cases (ltb (length xs) n)) [
    | inl e ↦ rw e (ap (take n) (append_assoc xs (x ∷ []) ys))
    | inr e ↦
        let full : length xs ≡ n = ground arith in
        rw e (take_full n xs ys full ∙ sym (take_full n xs (x ∷ ys) full))
  ]
