-- ===== src/Tests/Options.antt =====
-- The options, and the theorem of Validate at a concrete input.
use pod_proxier.Base.{◌≡◌, refl, ◌↔◌, true, none, some}
use pod_proxier.Base.Int.{pos}
use pod_proxier.GoString.{str, remove_byte}
use pod_proxier.Server.Options.{PodProxier, defaults, validate, validate_v2}
use pod_proxier.Server.Validation.{IsUsable, validate_iff}
use pod_proxier.Server.Answer.{decode_err, other}

abbrev v2_options : PodProxier
v2_options = record defaults { enable_v2 = true }

-- The defaults enable nothing.
validate-defaults :
    validate defaults ≡ some (str "at least one of --enable-v1 or --enable-v2 must be specify")
unfolding validate
validate-defaults = refl

validate-v2_options : validate v2_options ≡ none
unfolding validate validate_v2
validate-v2_options = refl

-- One port alone is no range.
validate-single :
    validate (record v2_options { port_range_start = pos 9000; port_range_end = pos 9000 })
    ≡ some (str "port-range-start must be less than port-range-end")
unfolding validate validate_v2
validate-single = refl

validate_iff_example : (validate v2_options ≡ none) ↔ IsUsable v2_options
validate_iff_example = validate_iff v2_options

-- The quotes of an error's text are dropped.
decode_err-other : decode_err (other (str "a\"b")) ≡ (10001, str "ab")
unfolding decode_err remove_byte
decode_err-other = refl
