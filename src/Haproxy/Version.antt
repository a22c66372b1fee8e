-- ===== src/Haproxy/Version.antt =====
-- The configuration version: read from the API's answer and written into the query of a write.
use pod_proxier.Base.{◌≡◌, refl, ◌∙◌, ap, ap₂, ◌≤◌, ◌<◌, ◌^◌, none, [], ◌∷◌, ◌++◌}
use pod_proxier.Base.Int.{ℤ, pos_part, neg_part}
use pod_proxier.GoString.{str, ◌==◌}
use pod_proxier.GoString.Number.{format_int, atoi, trim_space}
use pod_proxier.GoString.Decimal.{atoi-format_int}
use pod_proxier.GoString.Trim.{trim_space-format_int}
use pod_proxier.Haproxy.Types.{version_path}
use pod_proxier.Haproxy.Response.{Response}
use pod_proxier.Haproxy.Api.{Api, get}
use pod_proxier.Haproxy.Handle.{HaproxyHandle, do_request, get_version, get_version_or_tx_id}

module _ (api : Api) (h : HaproxyHandle) (v : ℤ) (r : Response) (w w' : api.World) where
  get_version_answered :
      do_request api h get (version_path ∷ []) none w ≡ (r, w')
      → r.err ≡ none
      → r.body ≡ format_int v
      → pos_part v < 2 ^ 63
      → neg_part v ≤ 2 ^ 63
      → get_version api h w ≡ (v, w')
  unfolding get_version
  get_version_answered answered no_err body low high = rw (ap (λ p. p.0.err) answered ∙ no_err) (
      ap₂ (λ z u. (z, u))
        (ap (λ p. atoi (trim_space p.0.body)) answered
          ∙ ap (λ t. atoi (trim_space t)) body
          ∙ ap atoi (trim_space-format_int v)
          ∙ atoi-format_int v low high)
        (ap (λ p. p.1) answered))

  -- Where the API answers the version request with the decimal text of a 64-bit integer, a write
  -- without a transaction carries that same text as its version.
  pub get_version_or_tx_id_answered :
      do_request api h get (version_path ∷ []) none w ≡ (r, w')
      → r.err ≡ none
      → r.body ≡ format_int v
      → pos_part v < 2 ^ 63
      → neg_part v ≤ 2 ^ 63
      → get_version_or_tx_id api h [] w ≡ (str "version=" ++ r.body, w')
  unfolding get_version_or_tx_id ◌==◌
  get_version_or_tx_id_answered answered no_err body low high =
      rw (get_version_answered answered no_err body low high, body) refl
