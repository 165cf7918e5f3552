-- ===== src/Cli/Making.antt =====
-- hydra/exchange/factory.py: an active market gets its connector.
use hydra_engine.Base.{
  ◌≡◌, true, false, Option, some, List, [], ◌∷◌, get_or, arith, Bool-cases, Option-cases, inl, inr,
}
use hydra_engine.Text.{Str, str_eq, str_eq_iff, member}
use hydra_engine.Dict.{Dict, lookup, insert, lookup-insert}
use hydra_engine.Config.Markets.{
  MarketManager, Entry, entries, entry_of, is_active, get_mode, active_keys, get_active_markets,
  paper,
}
use hydra_engine.Exchange.Factory.{Connector, create_one, create_each, create_exchanges}

member-active_keys :
    (d : Dict Entry) (k : Str)
    → get_or (entry_of (lookup k d)).enabled false ≡ true
    → member k (active_keys d) ≡ true
unfolding lookup active_keys
member-active_keys [] k h = absurd (ground arith)
member-active_keys ((j, e) ∷ d) k h =
    ground (arith, member-active_keys d k, str_eq_iff j k, str_eq_iff k j)

-- An active market is in the list of the active ones.
is_active-member :
    (m : MarketManager) (k : Str) → is_active m k ≡ true → member k (get_active_markets m) ≡ true
unfolding is_active get_active_markets
is_active-member m k h = member-active_keys (entries m) k h

module _ (load : Str → Option (Str × Str)) where
  create_each-keeps :
      (m : MarketManager) (ks : List Str) (made : Dict Connector) (k : Str) (c : Connector)
      → create_one load k (str_eq (get_mode m k) paper) ≡ some c
      → lookup k made ≡ some c
      → lookup k (create_each load m ks made) ≡ some c
  unfolding create_each
  create_each-keeps m [] made k c h there = there
  create_each-keeps m (j ∷ ks) made k c h there =
      elim (Option-cases (create_one load j (str_eq (get_mode m j) paper))) [
        | inl none' ↦ ground (arith, create_each-keeps m ks made k c h there)
        | inr (d, e) ↦ ground (
          arith,
          create_each-keeps m ks (insert j d made) k c h,
          lookup-insert j k d made,
          str_eq_iff j k,
        )
      ]

  create_each-makes :
      (m : MarketManager) (ks : List Str) (made : Dict Connector) (k : Str) (c : Connector)
      → create_one load k (str_eq (get_mode m k) paper) ≡ some c
      → member k ks ≡ true
      → lookup k (create_each load m ks made) ≡ some c
  unfolding create_each
  create_each-makes m [] made k c h among = absurd (ground arith)
  create_each-makes m (j ∷ ks) made k c h among = elim (Bool-cases (str_eq j k)) [
    | inl same ↦ ground (
      arith,
      create_each-keeps m ks (insert j c made) k c h,
      lookup-insert j k c made,
      str_eq_iff j k,
    )
    | inr other ↦ elim (Option-cases (create_one load j (str_eq (get_mode m j) paper))) [
      | inl none' ↦
          ground (arith, create_each-makes m ks made k c h, str_eq_iff j k, str_eq_iff k j)
      | inr (d, e) ↦
          ground
            (arith, create_each-makes m ks (insert j d made) k c h, str_eq_iff j k, str_eq_iff k j)
    ]
  ]

  -- Every active market whose connector can be made gets it.
  pub create_exchanges-makes :
      (m : MarketManager) (k : Str) (c : Connector)
      → is_active m k ≡ true
      → create_one load k (str_eq (get_mode m k) paper) ≡ some c
      → lookup k (create_exchanges load m) ≡ some c
  unfolding create_exchanges
  create_exchanges-makes m k c active h =
      create_each-makes m (get_active_markets m) [] k c h (is_active-member m k active)
