-- ===== src/Filter/Split.antt =====
-- `split_into_supported_unsupported` of backends/mysql/src/filtering/indexable_filter.rs: the part
-- of a filter that an index (or the server) can answer, and the rest.
use secure_fusion.Prelude.{Bool, Option, none, some, ◌&&◌, ◌||◌, is_some, is_none, if◌then◌else◌}
use secure_fusion.Statistics.{Estimates, TableStatistics}
use secure_fusion.Filter.{IndexableFilterExpr, and, or, not}
pub mod Exact
pub mod Loss

pub record SupportOptions {ℓ} (E : Type ℓ) (P : Type 0) : Type ℓ where
  pub supports_not : Bool
  pub supports_or : Bool
  pub is_supported : IndexableFilterExpr E → TableStatistics P → Option P

-- The result of the split.
pub record Parts {ℓ} (E : Type ℓ) (P : Type 0) : Type ℓ where
  pub supported : Option (IndexableFilterExpr E)
  pub unsupported : Option (IndexableFilterExpr E)
  pub selectivity : P

module _ {ℓ} {E : Type ℓ} where
  -- The macro `recombine!`.
  abbrev pub recombine :
      Option (IndexableFilterExpr E)
      → Option (IndexableFilterExpr E)
      → (IndexableFilterExpr E → IndexableFilterExpr E → IndexableFilterExpr E)
      → Option (IndexableFilterExpr E)
  recombine (some l) (some r) combinator = some (combinator l r)
  recombine (some a) none combinator = some a
  recombine none (some a) combinator = some a
  recombine none none combinator = none

  abbrev map_not : Option (IndexableFilterExpr E) → Option (IndexableFilterExpr E)
  map_not none = none
  map_not (some f) = some (not f)

  module _ {P : Type 0} (ops : Estimates P) where
    unfoldable pub split_and : Parts E P → Parts E P → Parts E P
    split_and l r = record {
      supported = recombine l.supported r.supported and;
      unsupported = recombine l.unsupported r.unsupported and;
      selectivity = ops.min l.selectivity r.selectivity;
    }

    unfoldable pub split_or : TableStatistics P → Parts E P → Parts E P → Parts E P
    split_or stats l r =
        if is_some l.supported
            && is_some r.supported
            && is_none l.unsupported
            && is_none r.unsupported
          || is_none l.supported
            && is_none r.supported
            && is_some l.unsupported
            && is_some r.unsupported
        then record {
          supported = recombine l.supported r.supported or;
          unsupported = recombine l.unsupported r.unsupported or;
          selectivity = ops.add l.selectivity r.selectivity;
        }
        else if is_none l.unsupported
        then record {
          supported = recombine l.supported r.supported or;
          unsupported = recombine l.supported r.unsupported or;
          selectivity = ops.add l.selectivity r.selectivity;
        }
        else if is_none r.unsupported
        then record {
          supported = recombine l.supported r.supported or;
          unsupported = recombine l.unsupported r.supported or;
          selectivity = ops.add l.selectivity r.selectivity;
        }
        else record {
          supported = none;
          unsupported =
              recombine (recombine l.supported l.unsupported and)
                (recombine r.supported r.unsupported and) or;
          selectivity = stats.num_rows;
        }

    unfoldable pub split_not : TableStatistics P → Parts E P → Parts E P
    split_not stats e = record {
      supported = map_not e.supported;
      unsupported = map_not e.unsupported;
      selectivity = ops.sub stats.num_rows e.selectivity;
    }

    module _ (options : SupportOptions E P) (stats : TableStatistics P) where
      -- A filter that is looked at as a whole.
      abbrev pub keep_supported : IndexableFilterExpr E → P → Parts E P
      keep_supported f selectivity = record {
        supported = some f;
        unsupported = none;
        selectivity = selectivity;
      }

      abbrev pub keep_unsupported : IndexableFilterExpr E → Parts E P
      keep_unsupported f = record {
        supported = none;
        unsupported = some f;
        selectivity = stats.num_rows;
      }

      unfoldable pub split : IndexableFilterExpr E → Parts E P
      split (and l r) = elim (options.is_supported (and l r) stats) [
        | some selectivity ↦ keep_supported (and l r) selectivity
        | none ↦ split_and (split l) (split r)
      ]
      split (or l r) = elim (options.is_supported (or l r) stats) [
        | some selectivity ↦ keep_supported (or l r) selectivity
        | none ↦
            if options.supports_or
            then split_or stats (split l) (split r)
            else keep_unsupported (or l r)
      ]
      split (not e) = elim (options.is_supported (not e) stats) [
        | some selectivity ↦ keep_supported (not e) selectivity
        | none ↦
            if options.supports_not then split_not stats (split e) else keep_unsupported (not e)
      ]
      split f = elim (options.is_supported f stats) [
        | some selectivity ↦ keep_supported f selectivity
        | none ↦ keep_unsupported f
      ]
