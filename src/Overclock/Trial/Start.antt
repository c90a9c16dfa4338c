-- ===== src/Overclock/Trial/Start.antt =====
-- daemon/crates/overclock/src/lib.rs: `with_store` and `restore_on_start`. A configuration that
-- could not be read is the default one.
use pyren.Base.{
  false, not, ◌||◌, Option, none, some, List, [], ◌∷◌, String, insert, is_some, all, if◌then◌else◌,
}
use pyren.Overclock.Plan.{Target, stock, is_stock}
use pyren.Overclock.Trial.{
  GpuProbe, Error, OverclockConfig, unconfirmed, State, World, Driver, System,
}
use pyren.Overclock.Trial.Card.{climb}
use pyren.Overclock.Trial.Methods.{find_gpu, has_consent}

abbrev pub started : OverclockConfig → State
started config = record {
  config = record config { armed_gpu = none };
  applied = [];
  pending = none;
  next_generation = 0;
  next_retry = none;
  fault_watch = false;
  unconfirmed_at_start = is_some config.armed_gpu;
  last_error = none;
  last_note = if is_some config.armed_gpu then some unconfirmed else none;
  save_failed = false;
}

abbrev pub restored : String → Target → State → World × Option Error → System
restored id t s (w, none) = record {
  state = record s { applied = insert id t s.applied };
  world = w;
}
restored id t s (w, some e) = record { state = record s { last_error = some e }; world = w }

abbrev pub restore_found : Driver → String → Target → System → Option GpuProbe → System
restore_found d id t s none = s
restore_found d id t s (some g) = restored id t s.state (climb d g stock t s.world)

abbrev pub restore_one : Driver → List GpuProbe → String → Target → System → System
restore_one d probe id t s = if is_stock t then s else restore_found d id t s (find_gpu id probe)

unfoldable pub restore_all : Driver → List GpuProbe → List (String × Target) → System → System
restore_all d probe [] s = s
restore_all d probe ((id, t) ∷ rest) s = restore_all d probe rest (restore_one d probe id t s)

unfoldable pub restore_on_start : Driver → List GpuProbe → System → System
restore_on_start d probe s =
    let config = s.state.config in
    if not config.restore_on_start || all (λ x. is_stock x.1) config.targets
    then s
    else if s.state.unconfirmed_at_start
    then s
    else if not (has_consent config)
    then s
    else restore_all d probe config.targets s

-- A start of the daemon, from what is on disk.
unfoldable pub start : Driver → List GpuProbe → OverclockConfig → World → System
start d probe config w = restore_on_start d probe (record { state = started config; world = w })
