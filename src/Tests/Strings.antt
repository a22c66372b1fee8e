-- ===== src/Tests/Strings.antt =====
-- Go's string functions on concrete texts, and their theorems at a concrete input.
use pod_proxier.Base.{◌≡◌, refl}
use pod_proxier.Base.Int.{pos, negsuc}
use pod_proxier.GoString.{str}
use pod_proxier.GoString.Number.{
  format_int, itoa, digits, atoi, parse_uint, trim_space, strip_all, strip_any, strip,
}
use pod_proxier.GoString.Escape.{query_escape}
use pod_proxier.GoString.Format.{errorf}

format_int-negative : format_int (negsuc 41) ≡ str "-42"
unfolding format_int itoa digits
format_int-negative = refl

atoi-line : atoi (trim_space (str " 17\n")) ≡ pos 17
unfolding atoi parse_uint trim_space strip_all strip_any strip
atoi-line = refl

atoi-text : atoi (str "1x") ≡ pos 0
unfolding atoi parse_uint
atoi-text = refl

query_escape-colon : query_escape (str "SVC web:80") ≡ str "SVC+web%3A80"
unfolding query_escape
query_escape-colon = refl

errorf-directive : errorf (str "50% full") ≡ str "50%!f(MISSING)ull"
unfolding errorf
errorf-directive = refl
