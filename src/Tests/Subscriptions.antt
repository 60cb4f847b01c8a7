-- ===== src/Tests/Subscriptions.antt =====
-- Subscriptions and changes for the theorems on lib/datasync/on.
use webcom_sdk_c.Cache.Lookup.{IsSorted}
use webcom_sdk_c.Base64.{codes}
use webcom_sdk_c.Cache.Deep.{Deep, Ordered}
use webcom_sdk_c.Cache.{Key, leaf_bool, leaf_string, internal, Children, end, child}
use webcom_sdk_c.Datasync.On.Diff.Keys.{keys, fate_at-keys}
use webcom_sdk_c.Datasync.On.Diff.{hash_at_key, fate_at, fate_of}
use webcom_sdk_c.Datasync.On.Registry.Paths.{by_path_cmp, on_registry_remove-by_path_cmp}
use webcom_sdk_c.Path.Order.Narrow.{IsNear}
use webcom_sdk_c.Path.Order.{key_cmp}
use webcom_sdk_c.Cache.{get}
use webcom_sdk_c.Avl.Operations.{on_eq}
use webcom_sdk_c.Compare.{Cmp, IsLawful}
use webcom_sdk_c.Datasync.Listen.{Item, active}
use webcom_sdk_c.Datasync.On.Api.{App}
use webcom_sdk_c.Datasync.On.Api.Off.{refs_at}
use webcom_sdk_c.Datasync.{connected}
use webcom_sdk_c.Path.{parse, parts}
use webcom_sdk_c.Datasync.On.Diff.{AreSorted}
use webcom_sdk_c.Datasync.On.Registry.Removal.{cbs_at}
use webcom_sdk_c.Datasync.On.Registry.{sub_of, on_registry_remove}
use webcom_sdk_c.Datasync.On.{InternalHash, OnSub, Call, Trig, child_changes}
use webcom_sdk_c.Prelude.{
  arith, ◌≤◌, ℕ, ◌+◌, ◌%◌, ◌^◌, ◌≡◌, refl, Bool, true, none, some, List, [], ◌∷◌, length, ltb,
}
use webcom_sdk_c.Tests.{
  scan_digits, scan_decimal, by_number, by_number-IsLawful, text_number, path_number,
}

abbrev by_key : Cmp Key
by_key = by_number text_number

abbrev by_path : Cmp OnSub
by_path = by_number (λ s. path_number s.path)

instance abbrev by_path-IsLawful : IsLawful by_path
by_path-IsLawful = by_number-IsLawful (λ s. path_number s.path)

-- Functions of the outside: a checksum, one digit for a number, and callbacks that stay for two calls.
abbrev sum : List ℕ → List ℕ
sum s = (text_number s % 256) ∷ []

abbrev digit : ℕ → List ℕ
digit d = (48 + d % 10) ∷ []

abbrev two_calls : List Call → Bool
two_calls made = ltb (length made) 3

-- Children b and c, where b and a were seen.
abbrev now : Children
now = child (codes "b") (leaf_bool true) (child (codes "c") (leaf_string none (codes "x")) end)

abbrev before : List InternalHash
before =
    record { key = codes "a"; hash = codes "1" } ∷ record { key = codes "b"; hash = codes "2" } ∷ []

now-IsSorted : IsSorted by_key now
unfolding text_number
now-IsSorted = ((refl, tt), (tt, tt))

before-AreSorted : AreSorted by_key before
unfolding text_number
before-AreSorted = ((refl, tt), (tt, tt))

-- A subscription to the path p with callbacks of all types.
abbrev sub : OnSub
sub = record {
  path = codes "p" ∷ [];
  added_cbs = 10 ∷ 11 ∷ [];
  removed_cbs = 12 ∷ [];
  changed_cbs = 13 ∷ [];
  value_cbs = 14 ∷ [];
  children_hashes = before;
  hash = codes "0";
}

abbrev state : Trig
state = record {
  sub = sub;
  root = internal none (child (codes "p") (internal none now) end);
  calls = record { made = []; deleted = [] };
}

state-Ordered : Deep (Ordered by_key) state.root
unfolding Deep text_number
state-Ordered = ((tt, tt), ((((refl, tt), (tt, tt)), (tt, (tt, tt))), tt))

-- A path with five callbacks and five references.
abbrev by_item : Cmp Item
by_item = by_number (λ li. path_number li.path)

abbrev listened : Item
listened = record { status = active; stamp = 0; ref = 5; path = codes "p" ∷ []; addr = 1 }

abbrev app : App
app = record {
  dispatch = record { subs = sub ∷ []; root = state.root; calls = state.calls };
  listening = record {
    net = record { state = connected; last_req = 0; pending = []; outputs = [] };
    lr = record { items = listened ∷ []; next_addr = 2 };
  };
}

app-enough :
    cbs_at by_path (parts (parse (codes "/p"))) app.dispatch.subs
    ≤ refs_at by_item (parts (parse (codes "/p"))) app.listening
unfolding cbs_at refs_at parse parts path_number
app-enough = omega arith

a-IsNear : IsNear scan_decimal (2 ^ 63) (codes "a")
unfolding scan_decimal scan_digits
a-IsNear = λ i h. absurd cc

b-IsNear : IsNear scan_decimal (2 ^ 63) (codes "b")
unfolding scan_decimal scan_digits
b-IsNear = λ i h. absurd cc

c-IsNear : IsNear scan_decimal (2 ^ 63) (codes "c")
unfolding scan_decimal scan_digits
c-IsNear = λ i h. absurd cc

p-IsNear : IsNear scan_decimal (2 ^ 63) (codes "p")
unfolding scan_decimal scan_digits
p-IsNear = λ i h. absurd cc

fate_at-keys_example :
    fate_at
      (keys scan_decimal)
      sum
      (codes "a")
      (child_changes (keys scan_decimal) sum now before none).1
    ≡ fate_of
        (keys scan_decimal)
        sum
        (get (keys scan_decimal) (codes "a") now)
        (hash_at_key (keys scan_decimal) sum (codes "a") before)
unfolding key_cmp scan_decimal scan_digits
fate_at-keys_example =
    fate_at-keys scan_decimal (2 ^ 63) sum now before none (codes "a") (omega arith)
      (b-IsNear, (c-IsNear, tt)) (a-IsNear, (b-IsNear, tt)) a-IsNear ((refl, tt), (tt, tt))
      ((refl, tt), (tt, tt))

-- Callback 11 is taken from the additions of children, the first of the types.
on_registry_remove-by_path_cmp_example :
    let path = codes "p" ∷ [] in
    let r = on_registry_remove (by_path_cmp scan_decimal) path 1 (some 11) (sub ∷ []) in
    cbs_at (by_path_cmp scan_decimal) path r.0
      + on_eq ((by_path_cmp scan_decimal).cmp (sub_of path) (sub_of path)) r.1 0
    ≡ cbs_at (by_path_cmp scan_decimal) path (sub ∷ [])
on_registry_remove-by_path_cmp_example =
    on_registry_remove-by_path_cmp scan_decimal (2 ^ 63) (omega arith) (codes "p" ∷ []) 1 (some 11)
      (sub ∷ []) (codes "p" ∷ []) (p-IsNear, tt) (p-IsNear, tt) ((p-IsNear, tt), tt) (tt, tt)
