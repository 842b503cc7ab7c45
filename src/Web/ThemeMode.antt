-- ===== src/Web/ThemeMode.antt =====
-- apps/web/src/theme-mode-context.tsx: the provider as a machine over the reader's choices, the
-- changes of the system's preference, and new mounts of the page. Storage may refuse to be read or
-- written.
use mikrouli.Common.{
  String, Bool, true, ◌≡◌, refl, ap, ◌∙◌, arith, Option, none, some, List, [], ◌∷◌, str_eq,
  if◌then◌else◌, or_else,
}

pub data ThemeMode : Type 0 where
  light dark follow_system : ThemeMode

pub data PaletteMode : Type 0 where
  light dark : PaletteMode

abbrev pub spelling : ThemeMode → String
spelling ThemeMode.light = "light"
spelling ThemeMode.dark = "dark"
spelling follow_system = "follow-system"

-- What `isValidMode` admits, as the mode that it is.
unfoldable pub valid_mode : String → Option ThemeMode
valid_mode raw =
    if str_eq raw "light"
    then some ThemeMode.light
    else if str_eq raw "dark"
    then some ThemeMode.dark
    else if str_eq raw "follow-system"
    then some follow_system
    else none

-- The entry of local storage under the key of the mode, and whether storage may be used.
pub record Storage : Type 0 where
  pub entry : Option String
  pub enabled : Bool

abbrev pub valid_entry : Option String → Option ThemeMode
valid_entry none = none
valid_entry (some raw) = valid_mode raw

unfoldable pub read_persisted_mode : Storage → Option ThemeMode
unfolding valid_mode
read_persisted_mode storage = if storage.enabled then valid_entry storage.entry else none

unfoldable pub persist_mode : ThemeMode → Storage → Storage
persist_mode mode storage =
    if storage.enabled then record storage { entry = some (spelling mode) } else storage

unfoldable pub resolve_effective_mode : ThemeMode → Bool → PaletteMode
resolve_effective_mode ThemeMode.light prefers_dark = PaletteMode.light
resolve_effective_mode ThemeMode.dark prefers_dark = PaletteMode.dark
resolve_effective_mode follow_system prefers_dark =
    if prefers_dark then PaletteMode.dark else PaletteMode.light

-- The provider's state, beside the storage and the system's preference.
pub record Provider : Type 0 where
  pub mode : ThemeMode
  pub prefers_dark : Bool
  pub storage : Storage
  pub system_dark : Bool

-- `useState(() => readPersistedMode() ?? 'follow-system')` and `useState(() => readOsPreference())`
unfoldable pub mount : Storage → Bool → Provider
unfolding read_persisted_mode
mount storage system_dark = record {
  mode = or_else (read_persisted_mode storage) follow_system;
  prefers_dark = system_dark;
  storage = storage;
  system_dark = system_dark;
}

pub data Event : Type 0 where
  set_mode : ThemeMode → Event
  system_change : Bool → Event
  reload : Event

unfoldable pub step : Event → Provider → Provider
unfolding persist_mode mount
step (set_mode next) p = record p { mode = next; storage = persist_mode next p.storage }
step (system_change now) p = record p { prefers_dark = now; system_dark = now }
step reload p = mount p.storage p.system_dark

abbrev pub run : List Event → Provider → Provider
run [] p = p
run (e ∷ es) p = run es (step e p)

unfoldable pub effective_mode : Provider → PaletteMode
unfolding resolve_effective_mode
effective_mode p = resolve_effective_mode p.mode p.prefers_dark

-- The last choice among some events, or else one that was made before.
abbrev pub last_choice : List Event → ThemeMode → ThemeMode
last_choice [] mode = mode
last_choice (set_mode next ∷ es) mode = last_choice es next
last_choice (system_change now ∷ es) mode = last_choice es mode
last_choice (reload ∷ es) mode = last_choice es mode

-- The system's last preference.
abbrev pub last_preference : List Event → Bool → Bool
last_preference [] known = known
last_preference (set_mode next ∷ es) known = last_preference es known
last_preference (system_change now ∷ es) known = last_preference es now
last_preference (reload ∷ es) known = last_preference es known

abbrev pub stored_mode : Storage → ThemeMode
stored_mode storage = or_else (read_persisted_mode storage) follow_system

-- The mode is the one that a new mount would read, and the preference is the system's.
record IsKept (p : Provider) : Type 0 where
  stored : stored_mode p.storage ≡ p.mode
  writable : p.storage.enabled ≡ true
  preferred : p.prefers_dark ≡ p.system_dark

persist_mode-stored :
    (mode : ThemeMode) (storage : Storage)
    → storage.enabled ≡ true
    → stored_mode (persist_mode mode storage) ≡ mode
unfolding read_persisted_mode persist_mode valid_mode
persist_mode-stored ThemeMode.light storage h = rw h refl
persist_mode-stored ThemeMode.dark storage h = rw h refl
persist_mode-stored follow_system storage h = rw h refl

persist_mode-enabled :
    (mode : ThemeMode) (storage : Storage)
    → storage.enabled ≡ true
    → (persist_mode mode storage).enabled ≡ true
unfolding persist_mode
persist_mode-enabled mode storage h = ground arith

mount-IsKept :
    (storage : Storage) (system_dark : Bool)
    → storage.enabled ≡ true
    → IsKept (mount storage system_dark)
unfolding mount
mount-IsKept storage system_dark h = record { stored = refl; writable = h; preferred = refl }

step-IsKept : (e : Event) (p : Provider) → IsKept p → IsKept (step e p)
unfolding step
step-IsKept (set_mode next) p k = record {
  stored = persist_mode-stored next p.storage k.writable;
  writable = persist_mode-enabled next p.storage k.writable;
  preferred = k.preferred;
}
step-IsKept (system_change now) p k = record {
  stored = k.stored;
  writable = k.writable;
  preferred = refl;
}
step-IsKept reload p k = mount-IsKept p.storage p.system_dark k.writable

run-effective :
    (es : List Event) (p : Provider)
    → IsKept p
    → effective_mode (run es p)
      ≡ resolve_effective_mode (last_choice es p.mode) (last_preference es p.system_dark)
unfolding effective_mode step mount
run-effective [] p k = ap (resolve_effective_mode p.mode) k.preferred
run-effective (set_mode next ∷ es) p k =
    run-effective es (step (set_mode next) p) (step-IsKept (set_mode next) p k)
run-effective (system_change now ∷ es) p k =
    run-effective es (step (system_change now) p) (step-IsKept (system_change now) p k)
run-effective (reload ∷ es) p k =
    run-effective es (step reload p) (step-IsKept reload p k)
    ∙ ap (λ m. resolve_effective_mode (last_choice es m) (last_preference es p.system_dark))
        k.stored

-- Where storage may be used, the page is drawn, after any choices, changes of the system and new
-- mounts, in the mode that was last chosen, or else was stored, and where that is to follow the
-- system, in the mode that the system last preferred.
pub mount-effective :
    (es : List Event) (storage : Storage) (system_dark : Bool)
    → storage.enabled ≡ true
    → effective_mode (run es (mount storage system_dark))
      ≡ resolve_effective_mode
          (last_choice es (stored_mode storage))
          (last_preference es system_dark)
unfolding mount
mount-effective es storage system_dark h =
    run-effective es (mount storage system_dark) (mount-IsKept storage system_dark h)
