-- ===== src/Store/Calls.antt =====
-- How the transactions of service/db/store.go end.
use node_util.Base.{
  ◌≡◌, refl, Bool, true, false, ◌&&◌, not, List, [], ◌∷◌, Option, Option-cases, inl, inr, none,
  some,
}
use node_util.Store.{TxCall, rollback_call, commit_call, Returned, failure, value, exec_tx}

abbrev pub is_none {ℓ} : {A : Type ℓ} → Option A → Bool
is_none none = true
is_none (some a) = false

abbrev pub commits : List TxCall → Bool
commits (commit_call ∷ []) = true
commits _ = false

abbrev pub rolls_back : List TxCall → Bool
rolls_back (rollback_call ∷ []) = true
rolls_back _ = false

module _ {E A : Type 0} where
  abbrev pub is_value : Returned E A → Bool
  is_value (failure e) = false
  is_value (value a) = true

  -- Whether nothing is wrong after the action, if it gave a value.
  abbrev pub goes_on : Returned E A → Option (A → Option E) → Bool
  goes_on (failure e) after = false
  goes_on (value obj) none = true
  goes_on (value obj) (some action) = is_none (action obj)

  -- A transaction that begins is committed exactly if its action gives a value and the action after
  -- it does not fail, and rolled back exactly if its action fails; execTx returns no error exactly
  -- if it is committed and Commit gives none.
  pub exec_tx-ends :
      (begun rolled committed : Option E) (fn : Returned E A) (after : Option (A → Option E))
      → (commits (exec_tx begun fn rolled after committed).0 ≡ is_none begun && goes_on fn after)
        × ((rolls_back (exec_tx begun fn rolled after committed).0
              ≡ is_none begun && not (is_value fn))
            × (is_none (exec_tx begun fn rolled after committed).1
                ≡ is_none begun && (goes_on fn after && is_none committed)))
  unfolding exec_tx
  exec_tx-ends (some e) rolled committed fn after = (refl, (refl, refl))
  exec_tx-ends none none committed (failure e) after = (refl, (refl, refl))
  exec_tx-ends none (some rb) committed (failure e) after = (refl, (refl, refl))
  exec_tx-ends none rolled none (value obj) none = (refl, (refl, refl))
  exec_tx-ends none rolled (some c) (value obj) none = (refl, (refl, refl))
  exec_tx-ends none rolled none (value obj) (some action) = elim (Option-cases (action obj)) [
    | inr (e, fails) ↦ rw (fails, exec_tx) (refl, (refl, refl))
    | inl fine ↦ rw (fine, exec_tx) (refl, (refl, refl))
  ]
  exec_tx-ends none rolled (some c) (value obj) (some action) = elim (Option-cases (action obj)) [
    | inr (e, fails) ↦ rw (fails, exec_tx) (refl, (refl, refl))
    | inl fine ↦ rw (fine, exec_tx) (refl, (refl, refl))
  ]
