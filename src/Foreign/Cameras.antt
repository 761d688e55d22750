-- ===== src/Foreign/Cameras.antt =====
-- src/discovery.rs: the functions for C callers.
pub mod Arrays
pub mod Owned
pub mod Freed
pub mod Returned
pub mod Balance
use pipop_core.Base.{
  ℕ, zero, suc, Bool, true, false, not, ◌&&◌, Option, none, some, List, [], ◌∷◌, Result, ok, err,
  stuck, length, ◌==◌, if◌then◌else◌,
}
use pipop_core.Error.{PtpIpError}
use pipop_core.External.{BigEndian}
use pipop_core.Types.{Ipv4Addr, DiscoveredCamera}
use pipop_core.Discovery.Socket.{Air}
use pipop_core.Discovery.{default_discovery_config, discover_cameras}
use pipop_core.Foreign.Memory.{
  ℤ, pos, negsuc, Foreign, Memory, pure, ◌>>=◌, ◌>>◌, defined, load, store, release, calloc,
}
use pipop_core.Foreign.Cells.{CCameraInfo, Cell, c_string, c_cameras, c_session}
use pipop_core.Foreign.Strings.{rust_str_to_c, drop_string}

-- What `out_count` and `out_cameras` point to: `none` where the function has not written it.
pub record Outputs : Type 0 where
  pub count : Option ℕ
  pub cameras : Option (Option ℕ)

-- Cameras as `calloc` returns them.
abbrev pub zeroed_camera : CCameraInfo
zeroed_camera = record {
  ip_address = record { octet_0 = 0; octet_1 = 0; octet_2 = 0; octet_3 = 0 };
  port = 0;
  model_name = none;
  vendor_id = 0;
}

abbrev pub zeroed : ℕ → List CCameraInfo
zeroed zero = []
zeroed (suc n) = zeroed_camera ∷ zeroed n

abbrev pub array_in : Cell → Foreign Cell (List CCameraInfo)
array_in (c_string bs) h = none
array_in (c_cameras cs) h = some (cs, h)
array_in (c_session s w) h = none

unfoldable pub array_at : ℕ → Foreign Cell (List CCameraInfo)
array_at p = load p >>= array_in

-- `*c_cameras.add(i)`, where the array has so many elements.
unfoldable pub camera_in : ℕ → List CCameraInfo → Option CCameraInfo
camera_in i [] = none
camera_in zero (c ∷ cs) = some c
camera_in (suc i) (c ∷ cs) = camera_in i cs

abbrev pub in_front : CCameraInfo → Option (List CCameraInfo) → Option (List CCameraInfo)
in_front c none = none
in_front c (some cs) = some (c ∷ cs)

unfoldable pub replaced : ℕ → CCameraInfo → List CCameraInfo → Option (List CCameraInfo)
replaced i d [] = none
replaced zero d (c ∷ cs) = some (d ∷ cs)
replaced (suc i) d (c ∷ cs) = in_front c (replaced i d cs)

unfoldable pub read_camera : ℕ → ℕ → Foreign Cell CCameraInfo
read_camera p i = array_at p >>= λ cs. λ h. defined (camera_in i cs) λ c. some (c, h)

unfoldable pub write_camera : ℕ → ℕ → CCameraInfo → Foreign Cell (Unit {0})
write_camera p i d =
    array_at p >>= λ cs. λ h. defined (replaced i d cs) λ cs'. store p (c_cameras cs') h

-- `ipv4_to_bytes` keeps the octets.
unfoldable pub ipv4_to_bytes : Ipv4Addr → Ipv4Addr
ipv4_to_bytes ip = record {
  octet_0 = ip.octet_0;
  octet_1 = ip.octet_1;
  octet_2 = ip.octet_2;
  octet_3 = ip.octet_3;
}

unfoldable pub c_camera : DiscoveredCamera → Option ℕ → CCameraInfo
unfolding ipv4_to_bytes
c_camera camera model_name = record {
  ip_address = ipv4_to_bytes camera.ip_address;
  port = camera.port;
  model_name = model_name;
  vendor_id = camera.vendor_extension_id;
}

-- The loop that fills the array, from an index on.
unfoldable pub fill : ℕ → ℕ → List DiscoveredCamera → Foreign Cell (Unit {0})
fill p i [] = pure tt
fill p i (camera ∷ cameras) = do
  model_name ← rust_str_to_c camera.model_name
  write_camera p i (c_camera camera model_name)
  fill p (suc i) cameras

abbrev pub filled : List DiscoveredCamera → Outputs → Option ℕ → Foreign Cell (ℤ × Outputs)
filled cameras out none = pure (negsuc 2, out)
filled cameras out (some p) =
    fill p 0 cameras >> pure (pos 0, record out { cameras = some (some p) })

-- The cameras that were found, in the caller's memory.
unfoldable pub hand_out : List DiscoveredCamera → Outputs → Foreign Cell (ℤ × Outputs)
hand_out cameras out =
    let counted = record out { count = some (length cameras) } in
    if length cameras == 0
    then pure (pos 0, record counted { cameras = some none })
    else calloc (c_cameras (zeroed (length cameras))) >>= filled cameras counted

abbrev pub found : Result PtpIpError (List DiscoveredCamera) → Outputs → Foreign Cell (ℤ × Outputs)
found (ok cameras) out = hand_out cameras out
found (err e) out = pure (negsuc 1, out)
found stuck out = λ h. none

-- The first two arguments say whether the pointers of the caller are there.
unfoldable pub ptpip_discover_cameras :
    BigEndian → Bool → Bool → Outputs → Air → Foreign Cell (ℤ × Outputs)
ptpip_discover_cameras be has_cameras has_count out s =
    if not (has_cameras && has_count)
    then pure (negsuc 0, out)
    else found (discover_cameras be default_discovery_config s).0 out

-- The loop that frees the names: so many of them, from an index on.
unfoldable pub drop_names : ℕ → ℕ → ℕ → Foreign Cell (Unit {0})
drop_names p i zero = pure tt
drop_names p i (suc n) = do
  camera ← read_camera p i
  drop_string camera.model_name
  drop_names p (suc i) n

unfoldable pub ptpip_free_cameras : Option ℕ → ℕ → Foreign Cell (Unit {0})
ptpip_free_cameras none count = pure tt
ptpip_free_cameras (some p) count =
    if count == 0 then pure tt else (drop_names p 0 count >> release p)
