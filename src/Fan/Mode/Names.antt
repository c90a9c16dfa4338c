-- ===== src/Fan/Mode/Names.antt =====
-- The names of the modes, there and back.
use pyren.Base.{◌≡◌, some}
use Prim.Native.String.{String}
use pyren.Fan.Mode.{FanMode, auto, max, manual, curve, parse, as_str}

-- Every mode is read back from the name that it is written as, which is in lower case already.
parse-as_str :
    (lower : String → String) (m : FanMode)
    → lower (as_str m) ≡ as_str m
    → parse lower (as_str m) ≡ some m
unfolding parse as_str
parse-as_str lower auto h = rw h
parse-as_str lower max h = rw h
parse-as_str lower manual h = rw h
parse-as_str lower curve h = rw h
