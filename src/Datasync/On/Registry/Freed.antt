-- ===== src/Datasync/On/Registry/Freed.antt =====
-- `deleted_cb_gc` of lib/datasync/on/on_registry.c, where a callback has been marked for deletion twice.
use webcom_sdk_c.Datasync.On.Registry.{has_cb}
use webcom_sdk_c.Datasync.On.{OnSub}
use webcom_sdk_c.Prelude.{ℕ, Bool, ◌||◌}

-- Whether a subscription has a callback.
unfoldable has_any : ℕ → OnSub → Bool
unfolding has_cb
has_any p s =
    has_cb p s.added_cbs || has_cb p s.removed_cbs || has_cb p s.changed_cbs || has_cb p s.value_cbs
