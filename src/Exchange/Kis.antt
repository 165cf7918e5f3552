-- ===== src/Exchange/Kis.antt =====
-- hydra/exchange/kis.py: the connector for Korean and American stocks. The library pykis is a parameter.
use mathlib.Core.List.{append_assoc, append-nil}
use hydra_engine.Base.{◌≡◌, Bool, Option, none, some, List, [], ◌∷◌, ◌++◌, map, arith, inl, inr}
use hydra_engine.Text.{Str, codes}
use hydra_engine.Json.{Json, Fields, str, num, obj, field, end}
use hydra_engine.Exec.{Result, ok, Action, pure, ◌>>=◌, ◌>>◌, outcome_cases}
use hydra_engine.Core.Types.{Side, buy, sell}

-- `KISExchange(app_key, app_secret, account_no, is_paper)`
pub record KisExchange : Type 0 where
  pub app_key : Str
  pub app_secret : Str
  pub account_no : Str
  pub is_paper : Bool

-- The arguments of `pykis.PyKis`.
pub record PyKisArgs : Type 0 where
  pub id : Str
  pub account : Str
  pub appkey : Str
  pub appsecret : Str
  pub virtual_account : Bool

-- A stock of the account, as the library describes it: its purchase price is converted with `float`.
pub record Stock (F : Type 0) : Type 0 where
  pub symbol : Json F
  pub qty : Json F
  pub purchase_price : F

-- The calls of the library, by the client that it makes: `C` is a client, `I` Python's integers and
-- `P` a pending order. A call that raises has an exception `E`.
pub record PyKis (F I E C P X : Type 0) : Type 0 where
  pub connect : PyKisArgs → Action E X C
  pub balance : C → Action E X F
  pub buy_stock : C → Str → I → Option F → Action E X Str
  pub sell_stock : C → Str → I → Option F → Action E X Str
  pub cancel_order : C → Str → Action E X (Unit {0})
  pub pending_orders : C → Action E X (List P)
  pub cancel : P → Action E X (Unit {0})
  pub number : P → Str
  pub stocks : C → Action E X (List (Stock F))

-- The connector, whose client is made at the first call, and the outside.
pub record Session (C X : Type 0) : Type 0 where
  pub client : Option C
  pub outside : X

module _ {F I E C P X : Type 0} (pykis : PyKis F I E C P X) where
  -- A call of the library.
  abbrev pub call : {A : Type 0} → Action E X A → Action E (Session C X) A
  call m s = let (r, x) = m s.outside in (r, record s { outside = x })

  abbrev pub client_args : KisExchange → PyKisArgs
  client_args k = record {
    id = k.app_key;
    account = k.account_no;
    appkey = k.app_key;
    appsecret = k.app_secret;
    virtual_account = k.is_paper;
  }

  abbrev pub remember : C → Action E (Session C X) C
  remember c s = (ok c, record s { client = some c })

  abbrev pub client_or : Option C → KisExchange → Action E (Session C X) C
  client_or (some c) k = pure c
  client_or none k = do c ← call (pykis.connect (client_args k)); remember c

  unfoldable pub get_client : KisExchange → Action E (Session C X) C
  get_client k s = client_or s.client k s

  unfoldable pub get_balance : KisExchange → Action E (Session C X) (Fields F)
  unfolding get_client
  get_balance k = do
    c ← get_client k
    x ← call (pykis.balance c)
    pure (field (codes "balance") (num x) end)

  abbrev pub trade : C → Side → Str → I → Option F → Action E X Str
  trade c buy symbol n price = pykis.buy_stock c symbol n price
  trade c sell symbol n price = pykis.sell_stock c symbol n price

  -- `int` is Python's conversion of the quantity, which raises on a quantity that is missing. The type
  -- of the order is not passed on.
  unfoldable pub create_order :
      (Option F → Result E I)
      → KisExchange
      → Str
      → Side
      → Str
      → Option F
      → Option F
      → Action E (Session C X) (Fields F)
  unfolding get_client
  create_order int k symbol side order_type qty price = do
    c ← get_client k
    n ← (λ s. (int qty, s))
    order ← call (trade c side symbol n price)
    pure (
        field (codes "order_id") (str order) (field (codes "status") (str (codes "submitted")) end))

  unfoldable pub cancel_order : KisExchange → Str → Action E (Session C X) (Fields F)
  unfolding get_client
  cancel_order k order_id = do
    c ← get_client k
    call (pykis.cancel_order c order_id)
    pure (field (codes "status") (str (codes "canceled")) end)

  -- The loop over the pending orders, with the numbers of those that are cancelled.
  unfoldable pub cancel_each : List P → List Str → Action E X (List Str)
  cancel_each [] canceled = pure canceled
  cancel_each (o ∷ os) canceled = pykis.cancel o >> cancel_each os (canceled ++ pykis.number o ∷ [])

  unfoldable pub cancel_all : KisExchange → Action E (Session C X) (List Str)
  unfolding get_client cancel_each
  cancel_all k = do c ← get_client k; os ← call (pykis.pending_orders c); call (cancel_each os [])

  abbrev pub position_of : Stock F → Json F
  position_of s = obj (
      field (codes "symbol") s.symbol (
        field (codes "qty") s.qty (
          field (codes "avg_price") (num s.purchase_price)
            (field (codes "side") (str (codes "buy")) end))))

  unfoldable pub get_positions : KisExchange → Action E (Session C X) (List (Json F))
  unfolding get_client
  get_positions k = do c ← get_client k; ss ← call (pykis.stocks c); pure (map position_of ss)

  cancel_each_ok :
      (os : List P) (canceled : List Str) (x : X) {numbers : List Str} {y : X}
      → cancel_each os canceled x ≡ (ok numbers, y)
      → numbers ≡ canceled ++ map pykis.number os
  unfolding cancel_each
  cancel_each_ok [] canceled x h = ground (arith, append-nil canceled)
  cancel_each_ok (o ∷ os) canceled x {numbers} {y} h = elim (outcome_cases (pykis.cancel o x)) [
    | inl (e, p) ↦ absurd (ground arith)
    | inr (done, p) ↦ ground (
      arith,
      cancel_each_ok os (canceled ++ pykis.number o ∷ []) (pykis.cancel o x).1 {numbers = numbers}
          {y = y},
      append_assoc canceled (pykis.number o ∷ []) (map pykis.number os),
    )
  ]

  -- When `cancel_all` returns, the numbers that it returns are those of all pending orders, in order.
  pub cancel_all_numbers :
      (k : KisExchange) (s after : Session C X) (c : C) (numbers : List Str)
      → s.client ≡ some c
      → cancel_all k s ≡ (ok numbers, after)
      → (os : List P) × ((pykis.pending_orders c s.outside).0 ≡ ok os)
        × (numbers ≡ map pykis.number os)
  unfolding cancel_all get_client
  cancel_all_numbers k s after c numbers there h =
      elim (outcome_cases (pykis.pending_orders c s.outside)) [
        | inl (e, p) ↦ absurd (ground arith)
        | inr (os, p) ↦
            let x = (pykis.pending_orders c s.outside).1 in
            (
              os,
              ground arith,
              ground (arith, cancel_each_ok os [] x {numbers = numbers} {y = after.outside}),
            )
      ]
