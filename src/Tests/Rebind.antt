-- ===== src/Tests/Rebind.antt =====
-- The rewriting of placeholders on short statements.
use fin_guard.Prelude.{[], ◌∷◌, ◌≡◌, refl, codes}
use fin_guard.Store.Rebind.{rebind, rebind_query, itoa}
use fin_guard.Store.Rebind.Laws.{holes}
use fin_guard.Store.Rebind.Segments.{dollars, rebind_query-questions}

numbered :
    rebind "pgx" (codes "a = ? AND b = '?' AND c = ?") ≡ codes "a = $1 AND b = '?' AND c = $2"
unfolding rebind itoa
numbered = refl

two_digits : itoa 120 ≡ codes "120"
unfolding itoa
two_digits = refl

rebind_query-questions_example :
    rebind_query (codes "a = ? AND b = '?' AND c = ?")
    ≡ dollars 1 (codes "a = ") (codes " AND b = '?' AND c = " ∷ [] ∷ [])
unfolding holes
rebind_query-questions_example =
    rebind_query-questions (codes "a = ") (codes " AND b = '?' AND c = " ∷ [] ∷ []) (refl, refl)
      ((refl, refl), ((refl, refl), tt))
