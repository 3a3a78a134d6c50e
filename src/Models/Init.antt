-- ===== src/Models/Init.antt =====
-- src/common/src/models.c: the init of each struct, of whatever it held before.
use zen_os.Base.{◌≡◌, refl}
use zen_os.Base.Int.{pos, negsuc}
use zen_os.Base.Scan.{done}
use zen_os.Models.{Heap, whole, free, free_string_array}
use zen_os.Models.Structs.{
  shelf_bottom, ShelfConfig, AppInfo, Deployment, UpdateInfo, PackageInfo, BlockedRequest,
  AuditEntry, PressureInfo, Budget, Notification, OobeConfig, KioskConfig, AccessibilityConfig,
  null_shelf_config, null_app_info, null_deployment, null_update_info, null_package_info,
  null_blocked_request, null_audit_entry, null_pressure_info, null_budget, null_notification,
  null_oobe_config, null_kiosk_config, null_accessibility_config,
}
use zen_os.Models.Cleanup.{
  Model, cleanup, null, shelf_config, app_info, deployment, update_info, package_info,
  blocked_request, audit_entry, budget, notification, oobe_config, kiosk_config,
  shelf_config_cleanup, app_info_cleanup, deployment_cleanup, update_info_cleanup,
  package_info_cleanup, blocked_request_cleanup, audit_entry_cleanup, budget_cleanup,
  notification_cleanup, oobe_config_cleanup, kiosk_config_cleanup,
}

unfoldable pub shelf_config_init : ShelfConfig → ShelfConfig
shelf_config_init x = record null_shelf_config { position = shelf_bottom; icon_size = pos 48 }

unfoldable pub app_info_init : AppInfo → AppInfo
app_info_init x = null_app_info

unfoldable pub deployment_init : Deployment → Deployment
deployment_init x = null_deployment

unfoldable pub update_info_init : UpdateInfo → UpdateInfo
update_info_init x = null_update_info

unfoldable pub package_info_init : PackageInfo → PackageInfo
package_info_init x = null_package_info

unfoldable pub blocked_request_init : BlockedRequest → BlockedRequest
blocked_request_init x = null_blocked_request

unfoldable pub audit_entry_init : AuditEntry → AuditEntry
audit_entry_init x = null_audit_entry

unfoldable pub pressure_info_init : PressureInfo → PressureInfo
pressure_info_init x = null_pressure_info

unfoldable pub budget_init : Budget → Budget
budget_init x = null_budget

unfoldable pub notification_init : Notification → Notification
notification_init x = record null_notification { timeout_ms = negsuc 0 }

unfoldable pub oobe_config_init : OobeConfig → OobeConfig
oobe_config_init x = null_oobe_config

unfoldable pub kiosk_config_init : KioskConfig → KioskConfig
kiosk_config_init x = null_kiosk_config

unfoldable pub accessibility_config_init : AccessibilityConfig → AccessibilityConfig
accessibility_config_init x = record null_accessibility_config { font_scale = whole 1 }

unfoldable pub init : Model → Model
unfolding shelf_config_init app_info_init deployment_init update_info_init package_info_init
    blocked_request_init audit_entry_init budget_init notification_init oobe_config_init
    kiosk_config_init
init (shelf_config x) = shelf_config (shelf_config_init x)
init (app_info x) = app_info (app_info_init x)
init (deployment x) = deployment (deployment_init x)
init (update_info x) = update_info (update_info_init x)
init (package_info x) = package_info (package_info_init x)
init (blocked_request x) = blocked_request (blocked_request_init x)
init (audit_entry x) = audit_entry (audit_entry_init x)
init (budget x) = budget (budget_init x)
init (notification x) = notification (notification_init x)
init (oobe_config x) = oobe_config (oobe_config_init x)
init (kiosk_config x) = kiosk_config (kiosk_config_init x)

-- A cleanup of what an init made frees nothing.
pub cleanup-init : (m : Model) (h : Heap) → cleanup (init m) h ≡ done (h, null m)
unfolding cleanup init free free_string_array shelf_config_cleanup app_info_cleanup
    deployment_cleanup update_info_cleanup package_info_cleanup blocked_request_cleanup
    audit_entry_cleanup budget_cleanup notification_cleanup oobe_config_cleanup kiosk_config_cleanup
cleanup-init (shelf_config x) h = refl
cleanup-init (app_info x) h = refl
cleanup-init (deployment x) h = refl
cleanup-init (update_info x) h = refl
cleanup-init (package_info x) h = refl
cleanup-init (blocked_request x) h = refl
cleanup-init (audit_entry x) h = refl
cleanup-init (budget x) h = refl
cleanup-init (notification x) h = refl
cleanup-init (oobe_config x) h = refl
cleanup-init (kiosk_config x) h = refl
