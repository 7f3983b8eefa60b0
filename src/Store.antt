-- ===== src/Store.antt =====
-- src/store.rs: `OrderStore`. The `HashMap` is an association list; nothing here rests on its order
-- of iteration. The file system and `serde_json` are the parameter `files`.
pub mod Laws
pub mod Views
pub mod Restart
use pump_poly_router.Base.{
  ℕ, ◌≡◌, Bool, true, false, not, List, [], ◌∷◌, ◌++◌, map, Option, none, some, ◌==◌, if◌then◌else◌,
}
use pump_poly_router.Text.{Text, text}
use pump_poly_router.Error.{RouterError, other, json, io, Result, ok, err, panic}
use pump_poly_router.External.{Reply, fine, fault}
use pump_poly_router.Effect.{Action, call, lift, pure, of_reply, converted, and_then, ◌>>=◌}
use pump_poly_router.Types.{Uuid, OrderIntent, is_terminal}

-- `std::fs` and `serde_json`, and how a `Uuid` prints.
pub record Files (World : Type 0) : Type 0 where
  pub path_exists : Text → World → Bool
  pub read_file : Text → World → Reply Text × World
  pub write_file : Text → Text → World → Reply (Unit {0}) × World
  pub to_json : List OrderIntent → Reply Text
  pub from_json : Text → Reply (List OrderIntent)
  pub uuid_to_string : Uuid → Text

-- `HashMap<Uuid, OrderIntent>`
abbrev pub Orders : Type 0
Orders = List (Uuid × OrderIntent)

unfoldable pub lookup : Uuid → Orders → Option OrderIntent
lookup k [] = none
lookup k ((j, o) ∷ m) = if j == k then some o else lookup k m

-- `HashMap::insert`
unfoldable pub put : Uuid → OrderIntent → Orders → Orders
put k o [] = (k, o) ∷ []
put k o ((j, p) ∷ m) = if j == k then (k, o) ∷ m else (j, p) ∷ put k o m

unfoldable pub values : Orders → List OrderIntent
values [] = []
values ((k, o) ∷ m) = o ∷ values m

pub record OrderStore : Type 0 where
  pub orders : Orders
  pub persist_path : Option Text

-- `OrderStore::new`
abbrev pub new_store : OrderStore
new_store = record { orders = []; persist_path = none }

unfoldable pub get : Uuid → OrderStore → Option OrderIntent
unfolding lookup
get k s = lookup k s.orders

-- The loop of `collect` into a map: a later order replaces an earlier one with its id.
unfoldable pub collect : Orders → List OrderIntent → Orders
collect m [] = m
collect m (o ∷ os) = collect (put o.id o m) os

-- `.filter(|o| !o.status.is_terminal()).map(|o| o.id)`
unfoldable pub open_ids : List OrderIntent → List Uuid
open_ids [] = []
open_ids (o ∷ os) = let rest = open_ids os in if is_terminal o.status then rest else o.id ∷ rest

unfoldable pub pending_ids : OrderStore → List Uuid
pending_ids s = open_ids (values s.orders)

-- `all`
unfoldable pub all_orders : OrderStore → List OrderIntent
all_orders s = values s.orders

module _ {World : Type 0} (files : Files World) where
  -- The body of `if let Some(path)` in `flush`.
  unfoldable pub write_snapshot : Text → Orders → Action World (Unit {0})
  write_snapshot path orders = do
    snapshot ← lift (of_reply (files.to_json (values orders)) json)
    call (files.write_file path snapshot) io

  unfoldable pub flush : OrderStore → Action World (Unit {0})
  flush s = elim s.persist_path [ none ↦ pure tt | some path ↦ write_snapshot path s.orders ]

  -- A method that changes the store returns it beside the result: what `HashMap::insert` did stays
  -- done when `flush` fails.
  unfoldable pub update : OrderIntent → OrderStore → World → Result (Unit {0}) × OrderStore × World
  update order s w =
      let s' : OrderStore = record s { orders = put order.id order s.orders } in
      let (r, w') = flush s' w in (r, s', w')

  -- After the duplicate check `insert` does what `update` does.
  unfoldable pub insert : OrderIntent → OrderStore → World → Result (Unit {0}) × OrderStore × World
  insert order s w = elim (get order.id s) [
    | some old ↦ (err (other (text "duplicate order id: " ++ files.uuid_to_string order.id)), s, w)
    | none ↦ update order s w
  ]

  -- `with_persistence`
  unfoldable pub with_persistence : Text → Action World OrderStore
  unfolding collect
  with_persistence path w =
      if files.path_exists path w
      then (do
        raw ← call (files.read_file path) io
        list ← lift (of_reply (files.from_json raw) json)
        pure (record { orders = collect [] list; persist_path = some path }))
          w
      else (ok (record { orders = []; persist_path = some path }), w)
