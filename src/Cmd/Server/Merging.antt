-- ===== src/Cmd/Server/Merging.antt =====
-- Which of the flag, the file and the default a setting of cmd/hologram-server comes from.
use hologram.Prelude.{ℕ, ◌≡◌, String, Bool, not, ◌==◌, if◌then◌else◌, arith}
use hologram.Cmd.Server.Configuration.{
  Config, Flags, override, switch_on, by_default, merge, complete,
}

override_idem : (flag field : String) → override flag (override flag field) ≡ override flag field
override_idem flag field = ground arith

switch_on_idem : (flag field : Bool) → switch_on flag (switch_on flag field) ≡ switch_on flag field
switch_on_idem flag field = ground arith

timeout_idem :
    (flag field : ℕ)
    → (if not (flag == 3600) then flag else (if not (flag == 3600) then flag else field))
      ≡ (if not (flag == 3600) then flag else field)
timeout_idem flag field = ground arith

by_default_idem :
    (text field : String) → by_default text (by_default text field) ≡ by_default text field
by_default_idem text field = ground arith

-- The configuration that the program runs with does not change if the flags and the defaults are
-- applied to it once more.
pub complete-merge_idem :
    (flags : Flags) (file : Config)
    → complete (merge flags (complete (merge flags file))) ≡ complete (merge flags file)
unfolding complete merge
complete-merge_idem flags file = simp (override_idem, switch_on_idem, timeout_idem, by_default_idem)
