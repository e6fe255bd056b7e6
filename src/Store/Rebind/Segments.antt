-- ===== src/Store/Rebind/Segments.antt =====
-- The rewriting of a text that is given by its placeholders and the segments between them.
use fin_guard.Prelude.{
  ℕ, ◌+◌, List, [], ◌∷◌, ◌++◌, Bool, false, not, ◌≡◌, refl, arith, if◌then◌else◌, nat_eq, All,
}
use fin_guard.Store.Rebind.{Bytes, quote, placeholder, itoa, rebind_from, rebind_query}
use fin_guard.Store.Rebind.Laws.{holes, rebind_from_none, rebind_query-eq-loop}

-- Whether the end of the text stands in a quoted literal, if its start does.
abbrev pub ends_in_quote : Bool → Bytes → Bool
ends_in_quote q [] = q
ends_in_quote q (ch ∷ s) = ends_in_quote (if nat_eq ch quote then not q else q) s

-- A segment of a statement: every literal that it opens it closes, and placeholders stand only there.
abbrev pub IsSegment : Bytes → Type 0
IsSegment s = (holes false s ≡ 0) × (ends_in_quote false s ≡ false)

-- A statement that is made of segments, with a placeholder before each but the first.
abbrev pub questions : Bytes → List Bytes → Bytes
questions s [] = s
questions s (t ∷ ts) = s ++ placeholder ∷ questions t ts

-- The same statement with the placeholders `$n`, `$n+1`, ….
abbrev pub dollars : ℕ → Bytes → List Bytes → Bytes
dollars n s [] = s
dollars n s (t ∷ ts) = s ++ b'$' ∷ (itoa n ++ dollars (n + 1) t ts)

rebind_from-append :
    (n : ℕ) (q : Bool) (s rest : Bytes)
    → holes q s ≡ 0
    → rebind_from n q (s ++ rest) ≡ s ++ rebind_from n (ends_in_quote q s) rest
unfolding holes rebind_from
rebind_from-append n q [] rest h = refl
rebind_from-append n q (ch ∷ s) rest h =
    ground (arith, rebind_from-append n q s rest, rebind_from-append n (not q) s rest)

rebind_from-nil : (n : ℕ) (q : Bool) → rebind_from n q [] ≡ []
unfolding rebind_from
rebind_from-nil n q = refl

rebind_from-hole :
    (n : ℕ) (rest : Bytes)
    → rebind_from n false (placeholder ∷ rest)
      ≡ b'$' ∷ (itoa (n + 1) ++ rebind_from (n + 1) false rest)
unfolding rebind_from
rebind_from-hole n rest = refl

rebind_from-questions :
    (n : ℕ) (s : Bytes) (ts : List Bytes)
    → IsSegment s
    → All IsSegment ts
    → rebind_from n false (questions s ts) ≡ dollars (n + 1) s ts
rebind_from-questions n s [] (h, c) hs = rebind_from_none n false s h
rebind_from-questions n s (t ∷ ts) (h, c) (ht, hs) =
    rw
      (
        rebind_from-append n false s _ h,
        c,
        rebind_from-hole,
        rebind_from-questions (n + 1) t ts ht hs,
      )
      refl

-- PostgreSQL's text of a statement has `$1`, `$2`, … for its placeholders from left to right, and
-- between them the segments as they were, with the literals that they quote.
pub rebind_query-questions :
    (s : Bytes) (ts : List Bytes)
    → IsSegment s
    → All IsSegment ts
    → rebind_query (questions s ts) ≡ dollars 1 s ts
rebind_query-questions s ts h hs = rw rebind_query-eq-loop (rebind_from-questions 0 s ts h hs)
