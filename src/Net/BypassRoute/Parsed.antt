-- ===== src/Net/BypassRoute/Parsed.antt =====
-- src/net/device.rs: what the output of `ip route get` is read as.
use ezvpn.Prelude.{
  ℕ, ◌≡◌, ◌≢◌, ◌⊎◌, inl, inr, refl, ap, ◌∙◌, true, ◌&&◌, ◌||◌, Option, none, some, is_some,
  some_injective, subst, sym, List, [], ◌∷◌, nat_eq, All, arith, Bool-cases, ◌==◌, ℕ_eq, list_eq,
  list_beq_iff,
}
use ezvpn.IpNet.{IpAddr}
use ezvpn.Error.{Result, ok, err}
use ezvpn.Net.BypassRoute.{
  BypassRouteInfo, Text, Found, is_address_char, is_scope_char, all_chars, valid_scope, valid_parts,
  is_valid_gateway_str, dev, via, found_dev, found_via, scan_tokens, info_of, parse_linux_route_get,
}

-- Letters, digits, and the marks of addresses and scopes.
abbrev IsPlain : ℕ → Type 0
IsPlain c = (is_address_char c || is_scope_char c || nat_eq c b'%') ≡ true

-- No option of a command starts so.
abbrev NotOption : Text → Type 0
NotOption [] = ⊥
NotOption (c ∷ cs) = c ≢ b'-'

abbrev pub IsPlainText : Text → Type 0
IsPlainText text = NotOption text × All IsPlain text

scope-IsPlain : (cs : Text) → all_chars is_scope_char cs ≡ true → All IsPlain cs
unfolding all_chars
scope-IsPlain [] h = tt
scope-IsPlain (c ∷ cs) h = (ground arith, scope-IsPlain cs (ground arith))

valid_scope-IsPlain : (cs : Text) → valid_scope cs ≡ true → All IsPlain cs
unfolding valid_scope
valid_scope-IsPlain [] h = tt
valid_scope-IsPlain (c ∷ cs) h = scope-IsPlain (c ∷ cs) h

valid_parts-IsPlain : (cs : Text) → valid_parts cs ≡ true → All IsPlain cs
unfolding valid_parts
valid_parts-IsPlain [] h = tt
valid_parts-IsPlain (c ∷ cs) h = elim (Bool-cases (nat_eq c b'%')) [
  | inl percent ↦ (ground arith, valid_scope-IsPlain cs (ground arith))
  | inr other ↦ (ground arith, valid_parts-IsPlain cs (ground arith))
]

pub valid-IsPlainText : (text : Text) → is_valid_gateway_str text ≡ true → IsPlainText text
unfolding is_valid_gateway_str
valid-IsPlainText [] h = cc
valid-IsPlainText (c ∷ cs) h =
    (unfold valid_parts in (λ e. ground arith), valid_parts-IsPlain (c ∷ cs) h)

-- A token that stands behind a key.
abbrev pub Follows : Text → Text → List Text → Type 0
Follows key x [] = ⊥
Follows key x (token ∷ []) = ⊥
Follows key x (token ∷ next ∷ tokens) = ((token ≡ key) × (next ≡ x)) ⊎ Follows key x (next ∷ tokens)

module _ (parse_ip : Text → Option IpAddr) where
  abbrev FoundDev : List Text → Found → Found → Type 0
  FoundDev tokens f r =
      (r.device ≡ f.device) ⊎ ((x : Text) × (r.device ≡ some x) × Follows dev x tokens)

  abbrev FoundVia : List Text → Found → Found → Type 0
  FoundVia tokens f r =
      ((r.gateway_str ≡ f.gateway_str) × (r.gateway ≡ f.gateway))
      ⊎ ((x : Text) × (r.gateway_str ≡ some x)
          × (r.gateway ≡ parse_ip x)
          × IsPlainText x
          × Follows via x tokens)

  token_dev :
      (token next : Text) (tokens : List Text) (f : Found)
      → FoundDev
          (token ∷ next ∷ tokens)
          f
          (found_via parse_ip token next (found_dev parse_ip token next f))
  unfolding found_dev found_via
  token_dev token next tokens f = elim (Bool-cases (token == dev)) [
    | inl is_dev ↦
        inr (next, ground (arith, is_dev), inl ((list_beq_iff ℕ_eq token dev).0 is_dev, refl))
    | inr other ↦ inl (ground (arith, other))
  ]

  token_via :
      (token next : Text) (tokens : List Text) (f : Found)
      → FoundVia
          (token ∷ next ∷ tokens)
          f
          (found_via parse_ip token next (found_dev parse_ip token next f))
  unfolding found_dev found_via
  token_via token next tokens f = elim (Bool-cases (token == via && is_valid_gateway_str next)) [
    | inl taken ↦ inr (
      next,
      ground (arith, taken),
      ground (arith, taken),
      valid-IsPlainText next (ground arith),
      inl ((list_beq_iff ℕ_eq token via).0 (ground arith), refl),
    )
    | inr passed ↦ inl (ground (arith, passed), ground (arith, passed))
  ]

  scan-Found :
      (tokens : List Text) (f : Found)
      → FoundDev tokens f (scan_tokens parse_ip tokens f)
        × FoundVia tokens f (scan_tokens parse_ip tokens f)
  unfolding scan_tokens
  scan-Found [] f = (inl refl, inl (refl, refl))
  scan-Found (token ∷ []) f = (inl refl, inl (refl, refl))
  scan-Found (token ∷ next ∷ tokens) f =
      let f' : Found = found_via parse_ip token next (found_dev parse_ip token next f) in
      let (device, gateway) = scan-Found (next ∷ tokens) f' in
      (
        later_dev f' (scan_tokens parse_ip (next ∷ tokens) f') (token_dev token next tokens f)
            device,
        later_via f' (scan_tokens parse_ip (next ∷ tokens) f') (token_via token next tokens f)
            gateway,
      )
    where
      later_dev :
          (f' r : Found)
          → FoundDev (token ∷ next ∷ tokens) f f'
          → FoundDev (next ∷ tokens) f' r
          → FoundDev (token ∷ next ∷ tokens) f r
      later_dev f' r now (inr (x, got, follows)) = inr (x, got, inr follows)
      later_dev f' r (inl kept) (inl same) = inl (same ∙ kept)
      later_dev f' r (inr (x, got, follows)) (inl same) = inr (x, same ∙ got, follows)

      later_via :
          (f' r : Found)
          → FoundVia (token ∷ next ∷ tokens) f f'
          → FoundVia (next ∷ tokens) f' r
          → FoundVia (token ∷ next ∷ tokens) f r
      later_via f' r now (inr (x, got, parsed, plain, follows)) =
          inr (x, got, parsed, plain, inr follows)
      later_via f' r (inl kept) (inl same) = inl (same.0 ∙ kept.0, same.1 ∙ kept.1)
      later_via f' r (inr (x, got, parsed, plain, follows)) (inl same) =
          inr (x, same.0 ∙ got, same.1 ∙ parsed, plain, follows)

  token_dev-some :
      (token next : Text) (f : Found)
      → (is_some f.device || token == dev) ≡ true
      → is_some (found_via parse_ip token next (found_dev parse_ip token next f)).device ≡ true
  unfolding found_dev found_via
  token_dev-some token next f h = ground arith

  scan-some :
      (tokens : List Text) (f : Found) (x : Text)
      → (is_some f.device ≡ true) ⊎ Follows dev x tokens
      → is_some (scan_tokens parse_ip tokens f).device ≡ true
  unfolding scan_tokens
  scan-some [] f x (inl found) = found
  scan-some [] f x (inr follows) = elim follows [ ]
  scan-some (token ∷ []) f x (inl found) = found
  scan-some (token ∷ []) f x (inr follows) = elim follows [ ]
  scan-some (token ∷ next ∷ tokens) f x (inl found) =
      scan-some (next ∷ tokens) (found_via parse_ip token next (found_dev parse_ip token next f)) x
        (inl (token_dev-some token next f (ground arith)))
  scan-some (token ∷ next ∷ tokens) f x (inr (inl (is_dev, same))) =
      scan-some (next ∷ tokens) (found_via parse_ip token next (found_dev parse_ip token next f)) x
        (inl (token_dev-some token next f (ground (arith, (list_beq_iff ℕ_eq token dev).1 is_dev))))
  scan-some (token ∷ next ∷ tokens) f x (inr (inr later)) =
      scan-some (next ∷ tokens) (found_via parse_ip token next (found_dev parse_ip token next f)) x
        (inr later)

  abbrev nothing : Found
  nothing = record { device = none; gateway = none; gateway_str = none }

  -- What a result says of the tokens.
  abbrev pub Read : List Text → IpAddr → Result BypassRouteInfo → Type 0
  Read tokens peer_ip (err e) = (x : Text) → ¬ Follows dev x tokens
  Read tokens peer_ip (ok info) =
      (info.peer_ip ≡ peer_ip)
      × Follows dev info.device tokens
      × (((info.gateway_str ≡ none) × (info.gateway ≡ none))
          ⊎ ((x : Text) × (info.gateway_str ≡ some x)
              × (info.gateway ≡ parse_ip x)
              × IsPlainText x
              × Follows via x tokens))

  info_of-Read :
      (tokens : List Text) (peer_ip : IpAddr) (f : Found) (o : Option Text)
      → f.device ≡ o
      → FoundDev tokens nothing f
      → FoundVia tokens nothing f
      → ((x : Text) → Follows dev x tokens → is_some f.device ≡ true)
      → Read tokens peer_ip (info_of parse_ip peer_ip f o)
  unfolding info_of
  info_of-Read tokens peer_ip f none e device gateway shows =
      λ x follows. cc (ap is_some e, shows x follows)
  info_of-Read tokens peer_ip f (some d) e (inl same) gateway shows = cc
  info_of-Read tokens peer_ip f (some d) e (inr (x, got, follows)) gateway shows =
      (refl, subst (λ y. Follows dev y tokens) (some_injective (sym got ∙ e)) follows, gateway)

  -- A route that is read has a device that stands behind `dev` in the output; it has no gateway, or a
  -- text that stands behind `via`, with the address that the text parses to. That text has letters,
  -- digits and the marks `.`, `:`, `%`, `_` and `-` only, and does not start with `-`. None is read
  -- only where nothing stands behind `dev`.
  pub parse_linux_route_get-Read :
      (tokens : List Text) (peer_ip : IpAddr)
      → Read tokens peer_ip (parse_linux_route_get parse_ip tokens peer_ip)
  unfolding parse_linux_route_get
  parse_linux_route_get-Read tokens peer_ip =
      let (device, gateway) = scan-Found tokens nothing in
      let f : Found = scan_tokens parse_ip tokens nothing in
      info_of-Read tokens peer_ip f f.device refl device gateway
        (λ x follows. scan-some tokens nothing x (inr follows))
