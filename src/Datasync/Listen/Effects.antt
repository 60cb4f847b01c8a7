-- ===== src/Datasync/Listen/Effects.antt =====
-- The functions of lib/datasync/listen/listen_registry.c that send requests: a loop over the tree
-- is a pass over the list of its items, which writes each item in place.

use Prim.Native.Nat.Ordering.{gt}
use webcom_sdk_c.Compare.{Cmp}
use webcom_sdk_c.Datasync.Listen.{
  Status, required, pending, active, failed, masked, Item, Registry, starts_with, key, update_at,
  add_ex, unref_ex,
}
use webcom_sdk_c.Datasync.Request.{request}
use webcom_sdk_c.Datasync.{CnxState, connected, Parts, listen, unlisten, on_listen_result, Net}
use webcom_sdk_c.Prelude.{
  ℕ, Bool, true, false, ◌&&◌, Option, none, some, List, [], ◌∷◌, ◌==◌, if◌then◌else◌, map, not,
}

-- The part of a context that these functions change.
pub record Listening : Type 0 where
  pub net : Net
  pub lr : Registry

unfoldable pub set_status : Status → Item → Item
set_status s li = record li { status = s }

-- `ctx->datasync.state == WC_CNX_STATE_CONNECTED`
unfoldable pub is_connected : CnxState → Bool
is_connected connected = true
is_connected _ = false

-- The body of the loop of `wc_listen_suspend_all`.
unfoldable pub suspend : Item → Item
unfolding set_status
suspend li = elim li.status [
  | active ↦ set_status required li
  | pending ↦ set_status required li
  | _ ↦ li
]

unfoldable pub suspend_all : Registry → Registry
unfolding suspend
suspend_all lr = record lr { items = map suspend lr.items }

-- What an `int64_t` result of a listen or unlisten request is put to: nothing.
module _ (written : ℕ → Bool) where
  -- `li->status = LISTEN_PENDING; wc_datasync_listen(...)`
  unfoldable pub send_listen : Item → Net → Item × Net
  unfolding set_status request
  send_listen li net = (
    set_status pending li,
    (request written net (listen li.path) (some (on_listen_result li.addr))).0,
  )

  unfoldable pub send_unlisten : Parts → Net → Net
  unfolding request
  send_unlisten path net = (request written net (unlisten path) none).0

  -- The body of the loop of `wc_listen_resume_all`.
  unfoldable pub resume : Item → Net → Item × Net
  unfolding send_listen
  resume li net = elim li.status [
    | required ↦ send_listen li net
    | pending ↦ send_listen li net
    | _ ↦ (li, net)
  ]

  -- A loop that writes each item in turn.
  unfoldable pub traverse : (Item → Net → Item × Net) → List Item → Net → List Item × Net
  traverse f [] net = ([], net)
  traverse f (li ∷ items) net =
      let (li', net') = f li net in
      let (items', last) = traverse f items net' in (li' ∷ items', last)

  unfoldable pub resume_all : Listening → Listening
  unfolding resume traverse
  resume_all l =
      let (items, net) = traverse resume l.lr.items l.net in
      record { net = net; lr = record l.lr { items = items } }

  -- The body of the loop of `mask_listen_request`.
  unfoldable pub mask : Item → Net → Item × Net
  unfolding set_status send_unlisten
  mask li net = elim li.status [
    | active ↦ (set_status masked li, send_unlisten li.path net)
    | pending ↦ (set_status masked li, net)
    | required ↦ (set_status masked li, net)
    | _ ↦ (li, net)
  ]

  -- The loop, over the items after the one of the path.
  unfoldable pub mask_run : Parts → List Item → Net → List Item × Net
  unfolding mask
  mask_run path [] net = ([], net)
  mask_run path (li ∷ items) net =
      let more : List Item × Net =
        let (li', net') = mask li net in
        let (items', last) = mask_run path items net' in (li' ∷ items', last) in
      if starts_with li.path path then more else (li ∷ items, net)

  -- The first `avl_it_next` passes over one item.
  unfoldable pub mask_rest : Parts → List Item → Net → List Item × Net
  unfolding mask_run
  mask_rest path [] net = ([], net)
  mask_rest path (li ∷ items) net =
      let (items', last) = mask_run path items net in (li ∷ items', last)

  -- What to do with a masked item when the item above it goes.
  unfoldable pub unmask : Item → Net → Item × Net
  unfolding send_listen set_status is_connected
  unmask li net =
      if is_connected net.state then send_listen li net else (set_status required li, net)

  unfoldable pub below_top : Parts → Option Parts → Bool
  unfolding starts_with
  below_top path none = false
  below_top path (some top) = starts_with path top

  unfoldable pub is_status_masked : Status → Bool
  is_status_masked masked = true
  is_status_masked _ = false

  -- The loop of `unmask_listen_request`, with `top_path`.
  unfoldable pub unmask_run : Parts → Option Parts → List Item → Net → List Item × Net
  unfolding unmask below_top is_status_masked
  unmask_run path top [] net = ([], net)
  unmask_run path top (li ∷ items) net =
      let go : Bool → List Item × Net = λ covered.
        let hit = not covered && is_status_masked li.status in
        let (li', net') : Item × Net = if hit then unmask li net else (li, net) in
        let (items', last) = unmask_run path (if hit then some li.path else top) items net' in
        (li' ∷ items', last) in
      let more = go (below_top li.path top) in
      if starts_with li.path path then more else (li ∷ items, net)

  module _ (c : Cmp Item) where
    -- A loop that starts with the first item that is not below the path.
    unfoldable pub start_at :
        Parts → (List Item → Net → List Item × Net) → List Item → Net → List Item × Net
    start_at path f [] net = f [] net
    start_at path f (li ∷ items) net =
        let (items', last) = start_at path f items net in
        elim (c.cmp (key path) li) [ gt ↦ (li ∷ items', last) | _ ↦ f (li ∷ items) net ]

    unfoldable pub mask_listen_request : Listening → Parts → Listening
    unfolding start_at mask_rest
    mask_listen_request l path =
        let (items, net) = start_at path (mask_rest path) l.lr.items l.net in
        record { net = net; lr = record l.lr { items = items } }

    unfoldable pub unmask_listen_request : Listening → Parts → Listening
    unfolding start_at unmask_run
    unmask_listen_request l path =
        let (items, net) = start_at path (unmask_run path none) l.lr.items l.net in
        record { net = net; lr = record l.lr { items = items } }

    -- The branch of `wc_datasync_watch` for an item whose status is REQUIRED or FAILED.
    unfoldable pub begin_watch : Listening → Parts → Item → Listening
    unfolding send_listen set_status is_connected mask_listen_request
    begin_watch l path li =
        let (li', net) : Item × Net =
          if is_connected l.net.state
          then send_listen li l.net
          else (set_status required li, l.net) in
        mask_listen_request
          (record {
            net = net;
            lr = record l.lr { items = update_at c path (λ _. li') l.lr.items };
          })
          path

    unfoldable pub watch : Listening → Parts → Listening
    unfolding add_ex begin_watch
    watch l path =
        let (lr, li) = add_ex c l.lr path in
        let added : Listening = record l { lr = lr } in
        elim li.status [
          | required ↦ begin_watch added path li
          | failed ↦ begin_watch added path li
          | _ ↦ added
        ]

    -- `none` is the failed assertion of `listen_registry_unref`.
    unfoldable pub unwatch_ex : Listening → Parts → ℕ → Option Listening
    unfolding unref_ex send_unlisten unmask_listen_request
    unwatch_ex l path ref_dec = elim (unref_ex c l.lr path ref_dec) [
      | none ↦ none
      | some (lr, gone) ↦ some (
          if gone
          then unmask_listen_request (record { net = send_unlisten path l.net; lr = lr }) path
          else record l { lr = lr })
    ]

  unfoldable pub unlisten_all : List Item → Net → Net
  unfolding send_unlisten
  unlisten_all [] net = net
  unlisten_all (li ∷ items) net = unlisten_all items (send_unlisten li.path net)

  unfoldable pub unwatch_all : Listening → Listening
  unfolding unlisten_all
  unwatch_all l = record { net = unlisten_all l.lr.items l.net; lr = record l.lr { items = [] } }

-- `on_listen_result`: a write to the item at an address; `none` where no item is there any more.
unfoldable pub listen_result : ℕ → Bool → List Item → Option (List Item)
unfolding set_status
listen_result addr success [] = none
listen_result addr success (li ∷ items) =
    let rest = listen_result addr success items in
    if li.addr == addr
    then some (set_status (if success then active else failed) li ∷ items)
    else elim rest [ none ↦ none | some items' ↦ some (li ∷ items') ]
