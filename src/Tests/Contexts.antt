-- ===== src/Tests/Contexts.antt =====
-- Tables of requests, listen items and contexts for the theorems on lib/datasync.
use webcom_sdk_c.Tests.{by_number, path_number}
use webcom_sdk_c.Avl.Sorted.{list_get, list_remove}
use webcom_sdk_c.Base64.{codes}
use webcom_sdk_c.Compare.{Cmp}
use webcom_sdk_c.Datasync.Connection.Quiet.{Disconnects, lws_callback-Disconnects}
use webcom_sdk_c.Datasync.Connection.{
  Env, Ctx, parser_ok, other_msg, closed, client_connection_error, lws_callback,
}
use webcom_sdk_c.Datasync.Listen.Effects.{listen_result}
use webcom_sdk_c.Datasync.Listen.Masking.{LiveAbove, is_masked-LiveAbove, at_addr, unref_ex-dangles}
use webcom_sdk_c.Datasync.Listen.{active, pending, Item, Registry, get, key, is_masked, unref_ex}
use webcom_sdk_c.Datasync.Request.Table.{
  waiting, IsTable, empties, empties-IsTable, waiting-empties, store_pending-IsTable,
  waiting-get_pending, waiting-store_pending,
}
use webcom_sdk_c.Datasync.Request.{slots, store_pending, get_pending}
use webcom_sdk_c.Datasync.{connected, unauth, user_callback, Trans, Net}
use webcom_sdk_c.Prelude.{ℕ, ◌≡◌, ◌↔◌, refl, true, none, some, List, [], ◌∷◌, ◌==◌, if◌then◌else◌}

abbrev table : List (List Trans)
table = empties slots

abbrev trans : Trans
trans = record { id = 300; action = unauth; callback = some (user_callback 1) }

abbrev stored : List (List Trans)
stored = store_pending table trans

stored-IsTable : IsTable stored
stored-IsTable = store_pending-IsTable table trans empties-IsTable (waiting-empties 300)

-- Another request, in the slot of the first.
abbrev again : Trans
again = record { id = 44; action = unauth; callback = none }

waiting-get_pending_example :
    ((get_pending stored 300).1 ≡ waiting stored 300)
    × (waiting (get_pending stored 300).0 300 ≡ (if 300 == 300 then none else waiting stored 300))
waiting-get_pending_example = waiting-get_pending stored 300 300 stored-IsTable

abbrev by_path : Cmp Item
by_path = by_number (λ li. path_number li.path)

abbrev top : Item
top = record { status = pending; stamp = 0; ref = 1; path = codes "a" ∷ []; addr = 7 }

abbrev below : Item
below = record { status = active; stamp = 0; ref = 2; path = codes "a" ∷ codes "b" ∷ []; addr = 8 }

abbrev items : List Item
items = top ∷ below ∷ []

is_masked-LiveAbove_example :
    (is_masked by_path items below.path ≡ true) ↔ LiveAbove by_path items [] below.path
is_masked-LiveAbove_example = is_masked-LiveAbove by_path items below.path

abbrev net : Net
net = record { state = connected; last_req = 1; pending = table; outputs = [] }

abbrev registry : Registry
registry = record { items = items; next_addr = 9 }

abbrev without_top : Registry
without_top = record { items = below ∷ []; next_addr = 9 }

get-top : get by_path items top.path ≡ some top
unfolding get path_number list_get
get-top = refl

at_addr-top : at_addr top.addr items ≡ 1
unfolding at_addr
at_addr-top = refl

unref_ex-top : unref_ex by_path registry top.path 1 ≡ some (without_top, true)
unfolding unref_ex get path_number key list_get list_remove
unref_ex-top = refl

unref_ex-dangles_example : listen_result top.addr true without_top.items ≡ none
unref_ex-dangles_example =
    unref_ex-dangles by_path registry without_top top.path 1 true get-top at_addr-top unref_ex-top

-- The writes that the cache got, and a parser for which any text is a message.
abbrev env : Env (List (List ℕ)) Unit
env = record {
  written = λ _. true;
  now = 1000;
  reconnect_on = λ _. true;
  put = λ path value writes. path ∷ writes;
  merge = λ path value writes. path ∷ writes;
  parser_new = tt;
  parse_msg_ex = λ _ _. parser_ok other_msg;
}

abbrev ctx : Ctx (List (List ℕ)) Unit
ctx = record {
  listening = record { net = net; lr = registry };
  parser = none;
  time_offset = 0;
  next_reconnect_timer = 4;
  stamp = 0;
  cached = [];
}

lws_callback-Disconnects_example :
    Disconnects env (lws_callback env closed ctx)
    × Disconnects env (lws_callback env client_connection_error ctx)
lws_callback-Disconnects_example = lws_callback-Disconnects env ctx

waiting-store_pending_example :
    waiting (store_pending stored again) 44
    ≡ (if again.id == 44 then some again else waiting stored 44)
waiting-store_pending_example = waiting-store_pending stored again 44 stored-IsTable
