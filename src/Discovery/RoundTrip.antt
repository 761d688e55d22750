-- ===== src/Discovery/RoundTrip.antt =====
-- src/discovery.rs: an answer that a camera writes is read back.
use pipop_core.Base.{
  ℕ, zero, suc, ◌^◌, ◌<◌, ◌≡◌, refl, ap, ◌∙◌, false, none, some, List, [], ◌∷◌, ◌++◌, All, Bytes,
  Text, ok, length, drop, ltb, ge→ltb, ◌==◌, arith,
}
use mathlib.Core.List.{reverse, reverse-append, reverse-reverse}
use pipop_core.External.{BigEndian}
use pipop_core.Types.{DiscoveredCamera}
use pipop_core.Utf8.{from_utf8_lossy}
use pipop_core.Utf8.Laws.{from_utf8_ascii, from_utf8_lossy-valid}
use pipop_core.Transport.Header.RoundTrip.{cursor_u16-write_u16, cursor_u32-write_u32}
use pipop_core.Discovery.Socket.{SocketAddr, v4, v6}
use pipop_core.Discovery.Answers.{
  discovery_response, discovery_code, vendor_fields, response_fields, parse_discovery_response,
  camera_from, trim_zeros, front_zeros,
}

-- A character of ASCII that is not NUL.
abbrev pub IsPlain : ℕ → Type 0
IsPlain c = (0 < c) × (c < 128)

-- So many NUL characters.
abbrev pub nuls : ℕ → Text
nuls zero = []
nuls (suc n) = 0 ∷ nuls n

front_zeros-nuls : (n : ℕ) → front_zeros (nuls n) ≡ []
front_zeros-nuls zero = refl
front_zeros-nuls (suc n) = front_zeros-nuls n

front_zeros-nuls_append : (n : ℕ) (t : Text) → front_zeros (nuls n ++ t) ≡ front_zeros t
front_zeros-nuls_append zero t = refl
front_zeros-nuls_append (suc n) t = front_zeros-nuls_append n t

front_zeros-plain : (c : ℕ) (t : Text) → IsPlain c → front_zeros (c ∷ t) ≡ c ∷ t
front_zeros-plain c t h = let e : (c == 0) ≡ false = ground arith in rw e refl

nuls_suc : (n : ℕ) → nuls n ++ (0 ∷ []) ≡ 0 ∷ nuls n
nuls_suc zero = refl
nuls_suc (suc n) = ap (λ (t : Text). 0 ∷ t) (nuls_suc n)

reverse-nuls : (n : ℕ) → reverse (nuls n) ≡ nuls n
reverse-nuls zero = refl
reverse-nuls (suc n) =
    reverse-append (0 ∷ []) (nuls n)
    ∙ ap (λ (t : Text). t ++ (0 ∷ [])) (reverse-nuls n)
    ∙ nuls_suc n

front_zeros-All : (t : Text) → All IsPlain t → front_zeros t ≡ t
front_zeros-All [] h = refl
front_zeros-All (c ∷ t) h = front_zeros-plain c t h.0

All-append : (xs ys : Text) → All IsPlain xs → All IsPlain ys → All IsPlain (xs ++ ys)
All-append [] ys h k = k
All-append (x ∷ xs) ys (h, r) k = (h, All-append xs ys r k)

All-reverse : (t : Text) → All IsPlain t → All IsPlain (reverse t)
All-reverse [] h = tt
All-reverse (c ∷ t) (h, r) =
    rw (reverse-append (c ∷ []) t) (All-append (reverse t) (c ∷ []) (All-reverse t r) (h, tt))

trim_zeros-padded : (name : Text) (n : ℕ) → All IsPlain name → trim_zeros (name ++ nuls n) ≡ name
unfolding trim_zeros
trim_zeros-padded [] n h = rw (front_zeros-nuls n) refl
trim_zeros-padded (c ∷ t) n h =
    let e : front_zeros (c ∷ (t ++ nuls n)) ≡ c ∷ (t ++ nuls n) =
      front_zeros-plain c (t ++ nuls n) h.0 in
    let name : Text = c ∷ t in
    ap (λ (u : Text). reverse (front_zeros (reverse u))) e
    ∙ ap (λ (u : Text). reverse (front_zeros u))
        (reverse-append name (nuls n) ∙ ap (λ (u : Text). u ++ reverse name) (reverse-nuls n))
    ∙ ap reverse (
        front_zeros-nuls_append n (reverse name)
        ∙ front_zeros-All (reverse name) (All-reverse name h))
    ∙ reverse-reverse name

ascii : (name : Text) (n : ℕ) → All IsPlain name → All (λ c. c < 128) (name ++ nuls n)
ascii [] zero h = tt
ascii [] (suc n) h = (omega arith, ascii [] n tt)
ascii (c ∷ t) n (h, r) = (h.1, ascii t n r)

module _ (be : BigEndian) where
  -- The answer of a camera: its name comes behind two more bytes.
  unfoldable pub put_answer : DiscoveredCamera → ℕ → ℕ → Bytes → Bytes
  put_answer camera g h name =
      be.write_u16 (discovery_code discovery_response)
      ++ (be.write_u16 0x0100
          ++ (be.write_u32 camera.vendor_extension_id
              ++ (be.write_u16 camera.vendor_extension_version
                  ++ (be.write_u16 camera.port ++ (g ∷ h ∷ name)))))

  module _ (camera : DiscoveredCamera) (g h : ℕ) (name : Bytes)
      (e : camera.vendor_extension_id < 2 ^ 32) (x : camera.vendor_extension_version < 2 ^ 16)
      (p : camera.port < 2 ^ 16) where
    drop-put_answer : drop 14 (put_answer camera g h name) ≡ name
    unfolding put_answer discovery_code
    drop-put_answer =
        rw
          (
            be.write_u16_lem 2 (omega arith),
            be.write_u16_lem 0x0100 (omega arith),
            be.write_u32_lem camera.vendor_extension_id e,
            be.write_u16_lem camera.vendor_extension_version x,
            be.write_u16_lem camera.port p,
          )
          refl

    length-put_answer : ltb (length (put_answer camera g h name)) 14 ≡ false
    unfolding put_answer discovery_code
    length-put_answer =
        rw
          (
            be.write_u16_lem 2 (omega arith),
            be.write_u16_lem 0x0100 (omega arith),
            be.write_u32_lem camera.vendor_extension_id e,
            be.write_u16_lem camera.vendor_extension_version x,
            be.write_u16_lem camera.port p,
          )
          (ge→ltb _ 14 (omega arith))

    response_fields-put_answer :
        (src : SocketAddr)
        → response_fields be (put_answer camera g h name) src (put_answer camera g h name)
          ≡ ok (
            camera_from camera.vendor_extension_id camera.vendor_extension_version camera.port name
                src,
            g ∷ h ∷ name,
          )
    unfolding response_fields vendor_fields put_answer discovery_code
    response_fields-put_answer src =
        rw
          (
            cursor_u16-write_u16 be 2 _ (omega arith),
            cursor_u16-write_u16 be 0x0100 _ (omega arith),
            cursor_u32-write_u32 be camera.vendor_extension_id _ e,
            cursor_u16-write_u16 be camera.vendor_extension_version _ x,
            cursor_u16-write_u16 be camera.port _ p,
          )
          (ap
            (λ (n : Bytes). ok (
              camera_from camera.vendor_extension_id camera.vendor_extension_version camera.port n
                  src,
              g ∷ h ∷ name,
            ))
            drop-put_answer)

    parsed_answer :
        (src : SocketAddr)
        → parse_discovery_response be (put_answer camera g h name) src
          ≡ ok (
              camera_from camera.vendor_extension_id camera.vendor_extension_version camera.port
                name src)
    unfolding parse_discovery_response
    parsed_answer src = rw (length-put_answer, response_fields-put_answer src) refl

  -- The answer of a camera whose numbers fit their fields, and whose name is ASCII text without
  -- NUL, with any number of NUL characters behind it, is read back if it comes from the camera's
  -- IPv4 address, and passed over from an IPv6 address.
  pub parse_discovery_response-put_answer :
      (camera : DiscoveredCamera) (g h n q flow scope : ℕ) (segments : List ℕ)
      → camera.vendor_extension_id < 2 ^ 32
      → camera.vendor_extension_version < 2 ^ 16
      → camera.port < 2 ^ 16
      → All IsPlain camera.model_name
      → (parse_discovery_response be
            (put_answer camera g h (camera.model_name ++ nuls n))
            (v4 camera.ip_address q)
          ≡ ok (some camera))
        × (parse_discovery_response be
              (put_answer camera g h (camera.model_name ++ nuls n))
              (v6 segments q flow scope)
            ≡ ok none)
  unfolding camera_from
  parse_discovery_response-put_answer camera g h n q flow scope segments e x p a =
      let name = camera.model_name ++ nuls n in
      let v : from_utf8_lossy name ≡ name =
        from_utf8_lossy-valid name (from_utf8_ascii name (ascii camera.model_name n a)) in
      (
        parsed_answer camera g h name e x p (v4 camera.ip_address q)
            ∙ ap (λ (t : Text). ok (some (record camera { model_name = t })))
                (ap trim_zeros v ∙ trim_zeros-padded camera.model_name n a),
        parsed_answer camera g h name e x p (v6 segments q flow scope),
      )
