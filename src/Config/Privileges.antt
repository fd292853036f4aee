-- ===== src/Config/Privileges.antt =====
-- The privileges of src/fmconfig.c, compared with one another.
use filemanager_httpd.Common.{◌≡◌, refl, ◌↔◌, Bool, true, false, not, ◌||◌, arith}
use filemanager_httpd.Config.{
  DirectoryOps, do_none, do_file, do_listing, do_all, Config, PrivilegedAction, pa_serve_page,
  pa_list_folder, pa_modify, is_action_allowed, gives_login_more_privileges,
}

abbrev pub implies : Bool → Bool → Bool
implies a b = not a || b

-- A login never takes a privilege away, and the actions are ordered: who may modify may list, and
-- who may list may be served pages; whatever the settings.
pub is_action_allowed_mono :
    (cfg : Config) (pa : PrivilegedAction) (b : Bool)
    → (implies (is_action_allowed cfg pa false) (is_action_allowed cfg pa true) ≡ true)
      × (implies (is_action_allowed cfg pa_modify b) (is_action_allowed cfg pa_list_folder b)
          ≡ true)
      × (implies (is_action_allowed cfg pa_list_folder b) (is_action_allowed cfg pa_serve_page b)
          ≡ true)
unfolding is_action_allowed
is_action_allowed_mono cfg pa_serve_page b = ground arith
is_action_allowed_mono cfg _ b = ground arith

-- The log-in button is worth showing exactly where some action is allowed to a user who is logged in
-- and not to a guest.
pub gives_login_more_privileges_iff :
    (cfg : Config)
    → (gives_login_more_privileges cfg ≡ true) ↔ (
        (pa : PrivilegedAction) × (is_action_allowed cfg pa true ≡ true)
        × (is_action_allowed cfg pa false ≡ false))
unfolding is_action_allowed gives_login_more_privileges
gives_login_more_privileges_iff cfg = (witness cfg.guest_ops cfg.avail_ops refl refl, back)
  where
    witness :
        (g a : DirectoryOps)
        → cfg.guest_ops ≡ g
        → cfg.avail_ops ≡ a
        → gives_login_more_privileges cfg ≡ true
        → (pa : PrivilegedAction) × (is_action_allowed cfg pa true ≡ true)
          × (is_action_allowed cfg pa false ≡ false)
    witness do_none a e f h = (pa_serve_page, ground arith, ground arith)
    witness do_file a e f h = (pa_list_folder, ground arith, ground arith)
    witness do_listing a e f h = (pa_modify, ground arith, ground arith)
    witness do_all a e f h = absurd (ground arith)

    back :
        ((pa : PrivilegedAction) × (is_action_allowed cfg pa true ≡ true)
          × (is_action_allowed cfg pa false ≡ false))
        → gives_login_more_privileges cfg ≡ true
    back (pa_serve_page, h, k) = ground arith
    back (pa_list_folder, h, k) = ground arith
    back (pa_modify, h, k) = ground arith
