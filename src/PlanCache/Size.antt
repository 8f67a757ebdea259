-- ===== src/PlanCache/Size.antt =====
-- The size of an entry: the early stops of the two visits do not change which plans are cached.
use secure_fusion.Prelude.{
  ℕ, ◌+◌, ◌≤◌, ◌≡◌, ◌⊎◌, inl, inr, true, none, some, List, [], ◌∷◌, leb, if◌then◌else◌, arith,
}
use secure_fusion.PlanCache.{Library, max_cacheable_statement_size, visit, visit_plan, new_entry}

abbrev pub sum : List ℕ → ℕ
sum [] = 0
sum (n ∷ ns) = n + sum ns

visit-cases :
    (total : ℕ) (sizes : List ℕ)
    → (visit total sizes ≡ total + sum sizes)
      ⊎ ((max_cacheable_statement_size ≤ visit total sizes)
          × (visit total sizes ≤ total + sum sizes))
unfolding visit
visit-cases total [] = inl (omega arith)
visit-cases total (n ∷ ns) = ground (arith, visit-cases (total + n) ns)

visit_plan-cases :
    (total : ℕ) (sizes : List ℕ)
    → (visit_plan total sizes ≡ total + sum sizes)
      ⊎ ((max_cacheable_statement_size ≤ visit_plan total sizes)
          × (visit_plan total sizes ≤ total + sum sizes))
unfolding visit_plan
visit_plan-cases total [] = inl (omega arith)
visit_plan-cases total (n ∷ ns) = ground (arith, visit_plan-cases (total + n) ns)

visit_plan-le : (total : ℕ) (sizes : List ℕ) → total ≤ visit_plan total sizes
unfolding visit_plan
visit_plan-le total [] = omega arith
visit_plan-le total (n ∷ ns) = ground (arith, visit_plan-le (total + n) ns)

-- Where an early stop changes the total, both the total and what is counted are over the limit.
total-cases :
    (ns ps : List ℕ)
    → (visit_plan (visit 0 ns) ps ≡ sum ns + sum ps)
      ⊎ ((max_cacheable_statement_size ≤ visit_plan (visit 0 ns) ps)
          × (max_cacheable_statement_size ≤ sum ns + sum ps))
total-cases ns ps =
    ground
      (arith, visit-cases 0 ns, visit_plan-cases (visit 0 ns) ps, visit_plan-le (visit 0 ns) ps)

leb_of_le : (m n : ℕ) → m ≤ n → leb m n ≡ true
leb_of_le m n h = ground arith

-- A plan is cached exactly if all the nodes of the statement and the plan together are smaller than
-- the limit, and then its entry has their total size and the time of the call.
pub new_entry-sum {ℓ} :
    {Statement Plan : Type ℓ} (lib : Library Statement Plan) (now : ℕ) (s : Statement) (p : Plan)
    → new_entry lib now s p ≡ (
        if leb max_cacheable_statement_size (sum (lib.statement_nodes s) + sum (lib.plan_nodes p))
        then none
        else some (record {
          plan = p;
          last_used = now;
          memory_size = sum (lib.statement_nodes s) + sum (lib.plan_nodes p);
        }))
unfolding new_entry
new_entry-sum lib now s p = elim (total-cases (lib.statement_nodes s) (lib.plan_nodes p)) [
  | inl e ↦ rw e
  | inr (counted, all) ↦ rw (leb_of_le _ _ counted, leb_of_le _ _ all)
]
