-- ===== src/Models/Frees.antt =====
-- src/common/src/models.c: a cleanup frees what its struct owns, once.
use zen_os.Base.{◌≡◌, refl, ap, ◌∙◌}
use zen_os.Base.Scan.{Scan, done, fault, no_fuel, ◌>>=◌}
use zen_os.Models.{Heap, free, free_string_array}
use zen_os.Models.Structs.{
  null_shelf_config, null_app_info, null_deployment, null_update_info, null_package_info,
  null_blocked_request, null_audit_entry, null_budget, null_notification, null_oobe_config,
  null_kiosk_config,
}
use zen_os.Models.Cleanup.{
  Model, leaving, as_model, cleanup, null, blocks, shelf_config, app_info, deployment, update_info,
  package_info, blocked_request, audit_entry, budget, notification, oobe_config, kiosk_config,
  shelf_config_cleanup, app_info_cleanup, deployment_cleanup, update_info_cleanup,
  package_info_cleanup, blocked_request_cleanup, audit_entry_cleanup, budget_cleanup,
  notification_cleanup, oobe_config_cleanup, kiosk_config_cleanup,
}
use zen_os.Models.Live.{Live, Without, free_all-Ends}
use zen_os.Models.Owned.{all_owned, AllLong, free_block, free_blocks, free_blocks-all}

-- What it owns are live blocks, all different, and its arrays are as long as their counts.
pub record Owns (m : Model) (h : Heap) : Type 0 where
  pub long : AllLong (blocks m) h.pointers
  pub live : Live (all_owned (blocks m) h.pointers) h

-- It returns, without a fault; the struct is zeroed; just what it owned is no longer live; and a
-- second cleanup changes nothing.
pub record Frees (m : Model) (h : Heap) : Type 0 where
  pub after : Heap
  pub returns : cleanup m h ≡ done (after, null m)
  pub without : Without (all_owned (blocks m) h.pointers) h after
  pub again : cleanup (null m) after ≡ done (after, null m)

as_model-leaving :
    (r : Scan Heap) {A : Type 0} (f : A → Model) (a : A)
    → as_model f (r >>= leaving a) ≡ (r >>= λ g. done (g, f a))
as_model-leaving (done h) f a = refl
as_model-leaving fault f a = refl
as_model-leaving no_fuel f a = refl

cleanup-blocks :
    (m : Model) (h : Heap)
    → cleanup m h ≡ (free_blocks (blocks m) (done h) >>= λ g. done (g, null m))
unfolding cleanup free_blocks free_block free free_string_array shelf_config_cleanup
    app_info_cleanup deployment_cleanup update_info_cleanup package_info_cleanup
    blocked_request_cleanup audit_entry_cleanup budget_cleanup notification_cleanup
    oobe_config_cleanup kiosk_config_cleanup
cleanup-blocks (shelf_config x) h =
    as_model-leaving (free_blocks (blocks (shelf_config x)) (done h)) shelf_config null_shelf_config
cleanup-blocks (app_info x) h =
    as_model-leaving (free_blocks (blocks (app_info x)) (done h)) app_info null_app_info
cleanup-blocks (deployment x) h =
    as_model-leaving (free_blocks (blocks (deployment x)) (done h)) deployment null_deployment
cleanup-blocks (update_info x) h =
    as_model-leaving (free_blocks (blocks (update_info x)) (done h)) update_info null_update_info
cleanup-blocks (package_info x) h =
    as_model-leaving (free_blocks (blocks (package_info x)) (done h)) package_info null_package_info
cleanup-blocks (blocked_request x) h =
    as_model-leaving (free_blocks (blocks (blocked_request x)) (done h)) blocked_request
      null_blocked_request
cleanup-blocks (audit_entry x) h =
    as_model-leaving (free_blocks (blocks (audit_entry x)) (done h)) audit_entry null_audit_entry
cleanup-blocks (budget x) h =
    as_model-leaving (free_blocks (blocks (budget x)) (done h)) budget null_budget
cleanup-blocks (notification x) h =
    as_model-leaving (free_blocks (blocks (notification x)) (done h)) notification null_notification
cleanup-blocks (oobe_config x) h =
    as_model-leaving (free_blocks (blocks (oobe_config x)) (done h)) oobe_config null_oobe_config
cleanup-blocks (kiosk_config x) h =
    as_model-leaving (free_blocks (blocks (kiosk_config x)) (done h)) kiosk_config null_kiosk_config

cleanup-null : (m : Model) (h : Heap) → cleanup (null m) h ≡ done (h, null m)
unfolding cleanup free free_string_array shelf_config_cleanup app_info_cleanup deployment_cleanup
    update_info_cleanup package_info_cleanup blocked_request_cleanup audit_entry_cleanup
    budget_cleanup notification_cleanup oobe_config_cleanup kiosk_config_cleanup
cleanup-null (shelf_config x) h = refl
cleanup-null (app_info x) h = refl
cleanup-null (deployment x) h = refl
cleanup-null (update_info x) h = refl
cleanup-null (package_info x) h = refl
cleanup-null (blocked_request x) h = refl
cleanup-null (audit_entry x) h = refl
cleanup-null (budget x) h = refl
cleanup-null (notification x) h = refl
cleanup-null (oobe_config x) h = refl
cleanup-null (kiosk_config x) h = refl

-- When what a struct owns are live blocks, all different, with arrays as long as their counts, its
-- cleanup returns without a fault, zeroes the struct and frees just these blocks, and a second
-- cleanup changes nothing. This holds for each of the eleven structs.
pub cleanup-Frees : (m : Model) (h : Heap) → Owns m h → Frees m h
cleanup-Frees m h o =
    let e = free_all-Ends (all_owned (blocks m) h.pointers) h o.live in
    record {
      after = e.after;
      returns =
          cleanup-blocks m h
          ∙ ap (λ r. r >>= λ g. done (g, null m))
              (free_blocks-all (blocks m) h o.long o.live ∙ e.returns);
      without = e.without;
      again = cleanup-null m e.after;
    }
