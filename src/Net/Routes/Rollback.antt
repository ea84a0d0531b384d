-- ===== src/Net/Routes/Rollback.antt =====
-- src/net/device.rs: the table after a failure, and after a guard is dropped.
use ezvpn.Prelude.{
  ◌≡◌, refl, sym, ◌∙◌, ap, Bool, true, false, List, Eq, ◌==◌, Bool-cases, inl, inr, if◌then◌else◌,
}
use ezvpn.Error.{Result, ok, err}
use ezvpn.Net.Routes.{RouteAddOutcome, added, already_existed, Table, remove_all}

module _ {S Net : Type 0} ⦃e : Eq Net⦄ (table : Table S Net) (has : S → Net → Bool) where
  -- What each answer says of the routes in the table: a route that is added was not there, one that
  -- exists or is refused changes nothing, and one that is removed is gone.
  unfoldable pub Answered : S → Net → S × Result RouteAddOutcome → Type 0
  Answered s r (t, ok added) =
      (has s r ≡ false) × ((x : Net) → has t x ≡ (if x == r then true else has s x))
  Answered s r (t, ok already_existed) = (x : Net) → has t x ≡ has s x
  Answered s r (t, err problem) = (x : Net) → has t x ≡ has s x

  pub record IsTable : Type 0 where
    pub answered : (s : S) (r : Net) → Answered s r (table.add_route s r)
    pub removed :
        (s : S) (r x : Net) → has (table.remove_route s r).0 x ≡ (if x == r then false else has s x)

  -- The same routes.
  abbrev pub Same : S → S → Type 0
  Same s t = (x : Net) → has s x ≡ has t x

  -- The table is as at the start: after an error, or once the guard has removed its routes.
  unfoldable pub Restores : S → S × Result (List Net) → Type 0
  Restores start (t, ok owned) = Same (remove_all table owned t) start
  Restores start (t, err problem) = Same t start

  module _ (laws : IsTable) where
    -- A route that was added and is removed again.
    pub undone :
        (s t : S) (r : Net)
        → (has s r ≡ false) × ((x : Net) → has t x ≡ (if x == r then true else has s x))
        → Same (table.remove_route t r).0 s
    undone s t r (absent, present) x = elim (Bool-cases (x == r)) [
      | inl here ↦
          laws.removed t r x ∙ rw here (sym absent ∙ ap (has s) (sym ((e.beq_iff x r).0 here)))
      | inr elsewhere ↦ laws.removed t r x ∙ rw elsewhere (present x ∙ rw elsewhere refl)
    ]
