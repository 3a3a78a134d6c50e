-- ===== src/Models/Cleanup.antt =====
-- src/common/src/models.c: the cleanup of each struct. It takes the struct and the heap, and returns
-- the heap and the struct that memset leaves.
use zen_os.Base.{List, [], ◌∷◌}
use zen_os.Base.Int.{ℤ}
use zen_os.Base.Scan.{Scan, done, ◌>>=◌}
use zen_os.Models.{Pointer, Heap, free, free_string_array}
use zen_os.Models.Structs.{
  ShelfConfig, AppInfo, Deployment, UpdateInfo, PackageInfo, BlockedRequest, AuditEntry, Budget,
  Notification, OobeConfig, KioskConfig, null_shelf_config, null_app_info, null_deployment,
  null_update_info, null_package_info, null_blocked_request, null_audit_entry, null_budget,
  null_notification, null_oobe_config, null_kiosk_config,
}

-- memset, when the frees are done.
abbrev pub leaving : {A : Type 0} → A → Heap → Scan (Heap × A)
leaving a h = done (h, a)

unfoldable pub shelf_config_cleanup : ShelfConfig → Heap → Scan (Heap × ShelfConfig)
unfolding free free_string_array
shelf_config_cleanup cfg h =
    free_string_array cfg.pinned_apps cfg.pinned_apps_count h >>= leaving null_shelf_config

unfoldable pub app_info_cleanup : AppInfo → Heap → Scan (Heap × AppInfo)
unfolding free free_string_array
app_info_cleanup info h =
    free info.app_id h
    >>= free info.name
    >>= free info.icon_path
    >>= free info.exec
    >>= free_string_array info.categories info.categories_count
    >>= leaving null_app_info

unfoldable pub deployment_cleanup : Deployment → Heap → Scan (Heap × Deployment)
unfolding free free_string_array
deployment_cleanup dep h =
    free dep.commit h
    >>= free dep.version
    >>= free_string_array dep.layered_packages dep.layered_packages_count
    >>= leaving null_deployment

unfoldable pub update_info_cleanup : UpdateInfo → Heap → Scan (Heap × UpdateInfo)
unfolding free free_string_array
update_info_cleanup info h =
    free info.commit h >>= free info.version >>= free info.changelog >>= leaving null_update_info

unfoldable pub package_info_cleanup : PackageInfo → Heap → Scan (Heap × PackageInfo)
unfolding free free_string_array
package_info_cleanup info h =
    free info.name h
    >>= free info.version
    >>= free info.description
    >>= free_string_array info.permissions info.permissions_count
    >>= leaving null_package_info

unfoldable pub blocked_request_cleanup : BlockedRequest → Heap → Scan (Heap × BlockedRequest)
unfolding free free_string_array
blocked_request_cleanup req h =
    free req.source_app h
    >>= free req.destination
    >>= free req.rule_matched
    >>= leaving null_blocked_request

unfoldable pub audit_entry_cleanup : AuditEntry → Heap → Scan (Heap × AuditEntry)
unfolding free free_string_array
audit_entry_cleanup entry h =
    free entry.details h >>= free entry.source_app >>= leaving null_audit_entry

unfoldable pub budget_cleanup : Budget → Heap → Scan (Heap × Budget)
unfolding free free_string_array
budget_cleanup budget h = free budget.cgroup_path h >>= leaving null_budget

unfoldable pub notification_cleanup : Notification → Heap → Scan (Heap × Notification)
unfolding free free_string_array
notification_cleanup notif h =
    free notif.app_id h
    >>= free notif.summary
    >>= free notif.body
    >>= free notif.icon
    >>= leaving null_notification

unfoldable pub oobe_config_cleanup : OobeConfig → Heap → Scan (Heap × OobeConfig)
unfolding free free_string_array
oobe_config_cleanup cfg h =
    free cfg.locale h
    >>= free cfg.timezone
    >>= free cfg.keyboard_layout
    >>= free cfg.username
    >>= free cfg.password_hash
    >>= free cfg.network_ssid
    >>= free cfg.network_psk
    >>= leaving null_oobe_config

unfoldable pub kiosk_config_cleanup : KioskConfig → Heap → Scan (Heap × KioskConfig)
unfolding free free_string_array
kiosk_config_cleanup cfg h = free cfg.app_id h >>= leaving null_kiosk_config

-- Any of the structs that own strings.
pub data Model : Type 0 where
  shelf_config : ShelfConfig → Model
  app_info : AppInfo → Model
  deployment : Deployment → Model
  update_info : UpdateInfo → Model
  package_info : PackageInfo → Model
  blocked_request : BlockedRequest → Model
  audit_entry : AuditEntry → Model
  budget : Budget → Model
  notification : Notification → Model
  oobe_config : OobeConfig → Model
  kiosk_config : KioskConfig → Model

abbrev pub as_model : {A : Type 0} → (A → Model) → Scan (Heap × A) → Scan (Heap × Model)
as_model f r = r >>= λ x. done (x.0, f x.1)

unfoldable pub cleanup : Model → Heap → Scan (Heap × Model)
unfolding shelf_config_cleanup app_info_cleanup deployment_cleanup update_info_cleanup
    package_info_cleanup blocked_request_cleanup audit_entry_cleanup budget_cleanup
    notification_cleanup oobe_config_cleanup kiosk_config_cleanup
cleanup (shelf_config x) h = as_model shelf_config (shelf_config_cleanup x h)
cleanup (app_info x) h = as_model app_info (app_info_cleanup x h)
cleanup (deployment x) h = as_model deployment (deployment_cleanup x h)
cleanup (update_info x) h = as_model update_info (update_info_cleanup x h)
cleanup (package_info x) h = as_model package_info (package_info_cleanup x h)
cleanup (blocked_request x) h = as_model blocked_request (blocked_request_cleanup x h)
cleanup (audit_entry x) h = as_model audit_entry (audit_entry_cleanup x h)
cleanup (budget x) h = as_model budget (budget_cleanup x h)
cleanup (notification x) h = as_model notification (notification_cleanup x h)
cleanup (oobe_config x) h = as_model oobe_config (oobe_config_cleanup x h)
cleanup (kiosk_config x) h = as_model kiosk_config (kiosk_config_cleanup x h)

abbrev pub null : Model → Model
null (shelf_config x) = shelf_config null_shelf_config
null (app_info x) = app_info null_app_info
null (deployment x) = deployment null_deployment
null (update_info x) = update_info null_update_info
null (package_info x) = package_info null_package_info
null (blocked_request x) = blocked_request null_blocked_request
null (audit_entry x) = audit_entry null_audit_entry
null (budget x) = budget null_budget
null (notification x) = notification null_notification
null (oobe_config x) = oobe_config null_oobe_config
null (kiosk_config x) = kiosk_config null_kiosk_config

-- What a struct owns: a string, or an array of so many strings.
pub data Block : Type 0 where
  string : Pointer → Block
  strings : Pointer → ℤ → Block

abbrev pub blocks : Model → List Block
blocks (shelf_config x) = strings x.pinned_apps x.pinned_apps_count ∷ []
blocks (app_info x) =
    string x.app_id
    ∷ string x.name
    ∷ string x.icon_path
    ∷ string x.exec
    ∷ strings x.categories x.categories_count
    ∷ []
blocks (deployment x) =
    string x.commit ∷ string x.version ∷ strings x.layered_packages x.layered_packages_count ∷ []
blocks (update_info x) = string x.commit ∷ string x.version ∷ string x.changelog ∷ []
blocks (package_info x) =
    string x.name
    ∷ string x.version
    ∷ string x.description
    ∷ strings x.permissions x.permissions_count
    ∷ []
blocks (blocked_request x) = string x.source_app ∷ string x.destination ∷ string x.rule_matched ∷ []
blocks (audit_entry x) = string x.details ∷ string x.source_app ∷ []
blocks (budget x) = string x.cgroup_path ∷ []
blocks (notification x) = string x.app_id ∷ string x.summary ∷ string x.body ∷ string x.icon ∷ []
blocks (oobe_config x) =
    string x.locale
    ∷ string x.timezone
    ∷ string x.keyboard_layout
    ∷ string x.username
    ∷ string x.password_hash
    ∷ string x.network_ssid
    ∷ string x.network_psk
    ∷ []
blocks (kiosk_config x) = string x.app_id ∷ []
