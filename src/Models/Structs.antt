-- ===== src/Models/Structs.antt =====
-- src/common/include/zen/models.h: the enumerations and the structs. The structs are those that memset
-- leaves, too: null_… are all zeros.
use zen_os.Base.{Bool, false}
use zen_os.Base.Int.{ℤ, Ratio, pos}
use zen_os.Models.{Pointer, whole}

pub data ShelfPosition : Type 0 where
  shelf_bottom shelf_left shelf_right shelf_top : ShelfPosition

pub data AppSource : Type 0 where
  app_source_native app_source_flatpak app_source_pwa app_source_waydroid : AppSource

pub data PackageSource : Type 0 where
  pkg_source_flatpak pkg_source_layered : PackageSource

pub data Protocol : Type 0 where
  proto_tcp proto_udp proto_dns : Protocol

pub data AuditEventType : Type 0 where
  audit_blocked audit_allowed audit_rule_update : AuditEventType

pub data Urgency : Type 0 where
  urgency_low urgency_normal urgency_critical : Urgency

pub record ShelfConfig : Type 0 where
  pub position : ShelfPosition
  pub auto_hide : Bool
  pub icon_size : ℤ
  pub pinned_apps : Pointer
  pub pinned_apps_count : ℤ

abbrev pub null_shelf_config : ShelfConfig
null_shelf_config = record {
  position = shelf_bottom;
  auto_hide = false;
  icon_size = pos 0;
  pinned_apps = 0;
  pinned_apps_count = pos 0;
}

pub record AppInfo : Type 0 where
  pub app_id : Pointer
  pub name : Pointer
  pub icon_path : Pointer
  pub exec : Pointer
  pub source : AppSource
  pub categories : Pointer
  pub categories_count : ℤ
  pub is_running : Bool
  pub pid : ℤ

abbrev pub null_app_info : AppInfo
null_app_info = record {
  app_id = 0;
  name = 0;
  icon_path = 0;
  exec = 0;
  source = app_source_native;
  categories = 0;
  categories_count = pos 0;
  is_running = false;
  pid = pos 0;
}

pub record Deployment : Type 0 where
  pub index : ℤ
  pub commit : Pointer
  pub version : Pointer
  pub timestamp : ℤ
  pub is_active : Bool
  pub is_pinned : Bool
  pub layered_packages : Pointer
  pub layered_packages_count : ℤ

abbrev pub null_deployment : Deployment
null_deployment = record {
  index = pos 0;
  commit = 0;
  version = 0;
  timestamp = pos 0;
  is_active = false;
  is_pinned = false;
  layered_packages = 0;
  layered_packages_count = pos 0;
}

pub record UpdateInfo : Type 0 where
  pub commit : Pointer
  pub version : Pointer
  pub delta_size_bytes : ℤ
  pub is_security : Bool
  pub signature_valid : Bool
  pub changelog : Pointer

abbrev pub null_update_info : UpdateInfo
null_update_info = record {
  commit = 0;
  version = 0;
  delta_size_bytes = pos 0;
  is_security = false;
  signature_valid = false;
  changelog = 0;
}

pub record PackageInfo : Type 0 where
  pub name : Pointer
  pub version : Pointer
  pub source : PackageSource
  pub description : Pointer
  pub installed : Bool
  pub permissions : Pointer
  pub permissions_count : ℤ
  pub size_bytes : ℤ

abbrev pub null_package_info : PackageInfo
null_package_info = record {
  name = 0;
  version = 0;
  source = pkg_source_flatpak;
  description = 0;
  installed = false;
  permissions = 0;
  permissions_count = pos 0;
  size_bytes = pos 0;
}

pub record BlockedRequest : Type 0 where
  pub timestamp : ℤ
  pub source_app : Pointer
  pub destination : Pointer
  pub rule_matched : Pointer
  pub protocol : Protocol

abbrev pub null_blocked_request : BlockedRequest
null_blocked_request = record {
  timestamp = pos 0;
  source_app = 0;
  destination = 0;
  rule_matched = 0;
  protocol = proto_tcp;
}

pub record AuditEntry : Type 0 where
  pub timestamp : ℤ
  pub event_type : AuditEventType
  pub details : Pointer
  pub source_app : Pointer

abbrev pub null_audit_entry : AuditEntry
null_audit_entry = record {
  timestamp = pos 0;
  event_type = audit_blocked;
  details = 0;
  source_app = 0;
}

pub record PressureInfo : Type 0 where
  pub some_avg10 : Ratio
  pub some_avg60 : Ratio
  pub some_avg300 : Ratio
  pub full_avg10 : Ratio
  pub full_avg60 : Ratio
  pub full_avg300 : Ratio
  pub total_stall_us : ℤ

abbrev pub null_pressure_info : PressureInfo
null_pressure_info = record {
  some_avg10 = whole 0;
  some_avg60 = whole 0;
  some_avg300 = whole 0;
  full_avg10 = whole 0;
  full_avg60 = whole 0;
  full_avg300 = whole 0;
  total_stall_us = pos 0;
}

pub record Budget : Type 0 where
  pub cgroup_path : Pointer
  pub memory_limit_bytes : ℤ
  pub cpu_weight : ℤ
  pub is_frozen : Bool

abbrev pub null_budget : Budget
null_budget = record {
  cgroup_path = 0;
  memory_limit_bytes = pos 0;
  cpu_weight = pos 0;
  is_frozen = false;
}

pub record Notification : Type 0 where
  pub id : ℤ
  pub app_id : Pointer
  pub summary : Pointer
  pub body : Pointer
  pub icon : Pointer
  pub urgency : Urgency
  pub timeout_ms : ℤ

abbrev pub null_notification : Notification
null_notification = record {
  id = pos 0;
  app_id = 0;
  summary = 0;
  body = 0;
  icon = 0;
  urgency = urgency_low;
  timeout_ms = pos 0;
}

pub record OobeConfig : Type 0 where
  pub locale : Pointer
  pub timezone : Pointer
  pub keyboard_layout : Pointer
  pub username : Pointer
  pub password_hash : Pointer
  pub network_ssid : Pointer
  pub network_psk : Pointer

abbrev pub null_oobe_config : OobeConfig
null_oobe_config = record {
  locale = 0;
  timezone = 0;
  keyboard_layout = 0;
  username = 0;
  password_hash = 0;
  network_ssid = 0;
  network_psk = 0;
}

pub record KioskConfig : Type 0 where
  pub enabled : Bool
  pub app_id : Pointer
  pub auto_restart : Bool
  pub disable_shell : Bool

abbrev pub null_kiosk_config : KioskConfig
null_kiosk_config = record {
  enabled = false;
  app_id = 0;
  auto_restart = false;
  disable_shell = false;
}

pub record AccessibilityConfig : Type 0 where
  pub screen_reader_enabled : Bool
  pub high_contrast : Bool
  pub dark_mode : Bool
  pub font_scale : Ratio

abbrev pub null_accessibility_config : AccessibilityConfig
null_accessibility_config = record {
  screen_reader_enabled = false;
  high_contrast = false;
  dark_mode = false;
  font_scale = whole 0;
}
