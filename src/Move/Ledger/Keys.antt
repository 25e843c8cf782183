-- ===== src/Move/Ledger/Keys.antt =====
-- Which rows a ledger has, and what a row says remains.
use openddil_demo.Base.{
  any-append, ℕ, String, ◌≡◌, refl, true, ◌||◌, Option, none, some, List, [], ◌∷◌, ◌++◌, arith, map,
  ◌==◌, ap, ◌↔◌,
}
use openddil_demo.Base.Sort.{
  sort_by, distinct, text_le, holds_text, IsDistinct, distinct-IsDistinct, holds-distinct,
  sort_by-IsDistinct, any-sort_by,
}
use openddil_demo.Move.{is_absent}
use openddil_demo.Move.Ledger.{
  LedgerFire, LedgerResupply, LedgerDeclared, LedgerRow, Ev, events, keys_of, ledger_keys,
  ledger_row, replay_ledger, load_in,
}

map-row_key :
    (declared : LedgerDeclared) (iso : Option String) (es : List Ev) (ks : List String)
    → map (λ (r : LedgerRow). r.munition_key) (map (ledger_row declared iso es) ks) ≡ ks
unfolding ledger_row
map-row_key declared iso es [] = refl
map-row_key declared iso es (k ∷ ks) = ap (λ l. k ∷ l) (map-row_key declared iso es ks)

module _ (date_parse : String → Option ℕ) (to_iso : ℕ → String) (declared : LedgerDeclared)
    (fires : List LedgerFire) (rs : List LedgerResupply) (as_of : ℕ) where
  abbrev pub row_keys : List String
  row_keys =
      map (λ (r : LedgerRow). r.munition_key)
        (replay_ledger date_parse to_iso declared fires rs as_of)

  abbrev types_of : List String
  types_of =
      keys_of declared.asset
      ++ (keys_of declared.variant
          ++ (map (λ (f : LedgerFire). f.munition_type) fires
              ++ map (λ (r : LedgerResupply). r.munition_type) rs))

  same_keys : row_keys ≡ sort_by text_le (distinct types_of)
  unfolding replay_ledger
  same_keys =
      map-row_key declared (some (to_iso as_of)) (events date_parse as_of fires rs)
        (ledger_keys declared fires rs)

  -- Each munition type that is declared, fired or received has exactly one row, also one whose
  -- events all lie after the instant, and no other type has one.
  pub replay_ledger_keys :
      (key : String)
      → IsDistinct row_keys
        × (holds_text key row_keys ≡ (
            holds_text key (keys_of declared.asset)
            || (holds_text key (keys_of declared.variant)
                || (holds_text key (map (λ (f : LedgerFire). f.munition_type) fires)
                    || holds_text key (map (λ (r : LedgerResupply). r.munition_type) rs)))))
  replay_ledger_keys key =
      let fired = map (λ (f : LedgerFire). f.munition_type) fires in
      let received = map (λ (r : LedgerResupply). r.munition_type) rs in
      let p = λ (j : String). j == key in
      let same = same_keys in
      (
        rw same (sort_by-IsDistinct text_le (distinct types_of) (distinct-IsDistinct types_of)),
        ground (
          arith,
          ap (holds_text key) same,
          any-sort_by text_le p (distinct types_of),
          holds-distinct key types_of,
          any-append p (keys_of declared.asset) (keys_of declared.variant ++ (fired ++ received)),
          any-append p (keys_of declared.variant) (fired ++ received),
          any-append p fired received,
        ),
      )

-- What remains is absent exactly when neither the asset nor its variant declares the type; a declared
-- load of zero is not absent.
pub ledger_row_remaining :
    (declared : LedgerDeclared) (iso : Option String) (es : List Ev) (key : String)
    → ((is_absent (ledger_row declared iso es key).remaining ≡ true)
        ↔ ((load_in declared.asset key ≡ none) × (load_in declared.variant key ≡ none)))
unfolding ledger_row is_absent
ledger_row_remaining declared iso es key = (λ h. ground arith, λ h. ground arith)
