-- ===== src/Provider/Probe.antt =====
-- What the provider lists, and the elements that it comes to.
use Prim.Native.String.{String}
use mathlib.Core.List.{reverse, reverse-cons, append-nil, append_assoc}
use ntv2_gst.Prelude.{
  ℕ, ◌≡◌, ◌∙◌, refl, sym, ap, Bool, true, false, ◌==◌, if◌then◌else◌, Option, some, List, [], ◌∷◌,
  ◌++◌, map, if_both,
}
use ntv2_gst.Property.Video
use ntv2_gst.Property.Audio
use ntv2_gst.Provider.{
  DeviceInfo, AjaDevice, device_new, probe_loop, probe, Element, video_element, audio_element,
  create_element,
}

-- The devices in the order of the scanner.
offered : Bool → List DeviceInfo → List AjaDevice
offered nvmm_enabled [] = []
offered nvmm_enabled (d ∷ ds) =
    if d.num_vid_inputs == 0
    then offered nvmm_enabled ds
    else device_new nvmm_enabled d true ∷ device_new nvmm_enabled d false ∷ offered nvmm_enabled ds

probe_loop_lem :
    (nvmm_enabled : Bool) (ds : List DeviceInfo) (ret : List AjaDevice)
    → reverse (probe_loop nvmm_enabled ds ret) ≡ reverse ret ++ offered nvmm_enabled ds
unfolding offered
probe_loop_lem nvmm_enabled [] ret = sym (append-nil (reverse ret))
probe_loop_lem nvmm_enabled (d ∷ ds) ret =
    let audio = device_new nvmm_enabled d false in
    let video = device_new nvmm_enabled d true in
    if_both (λ x y. reverse (probe_loop nvmm_enabled ds x) ≡ reverse ret ++ y)
      (d.num_vid_inputs == 0) ret (audio ∷ video ∷ ret) (offered nvmm_enabled ds)
      (video ∷ audio ∷ offered nvmm_enabled ds) (λ _. probe_loop_lem nvmm_enabled ds ret)
      (λ _.
        probe_loop_lem nvmm_enabled ds (audio ∷ video ∷ ret) ∙ simp (reverse-cons, append_assoc))

-- The elements of the devices with video inputs: for each a video source and an audio source, which use the device
-- that has the index of this one.
abbrev pub sources :
    (ℕ → String) → Video.Element → Audio.Element → List DeviceInfo → List (Option Element)
sources print v a [] = []
sources print v a (d ∷ ds) =
    if d.num_vid_inputs == 0
    then sources print v a ds
    else some (video_element (record v { device_identifier = print d.device_index }))
      ∷ some (audio_element (record a { device_identifier = print d.device_index }))
      ∷ sources print v a ds

module _ (print : ℕ → String) (make : String → Option Element) (v : Video.Element)
    (a : Audio.Element) (makes_video : make "ajavideosrc" ≡ some (video_element v))
    (makes_audio : make "ajaaudiosrc" ≡ some (audio_element a)) where
  map-offered :
      (nvmm_enabled : Bool) (ds : List DeviceInfo)
      → map (create_element print make) (offered nvmm_enabled ds) ≡ sources print v a ds
  unfolding offered create_element device_new Video.set_property Audio.set_property
  map-offered nvmm_enabled [] = refl
  map-offered nvmm_enabled (d ∷ ds) =
      let rest = map-offered nvmm_enabled ds in
      let video : create_element print make (device_new nvmm_enabled d true)
          ≡ some (video_element (record v { device_identifier = print d.device_index })) =
        rw makes_video refl in
      let audio : create_element print make (device_new nvmm_enabled d false)
          ≡ some (audio_element (record a { device_identifier = print d.device_index })) =
        rw makes_audio refl in
      if_both (λ x y. map (create_element print make) x ≡ y) (d.num_vid_inputs == 0) _ _ _ _
        (λ _. rest) (λ _. cc)

  -- The elements that the listed devices come to are, in the order of the scanner and for each device with a
  -- video input, a video source and then an audio source, both for the device with this index, for
  -- factories that work.
  pub probe-sources :
      (nvmm_enabled : Bool) (devices : List DeviceInfo)
      → map (create_element print make) (probe nvmm_enabled devices) ≡ sources print v a devices
  unfolding probe
  probe-sources nvmm_enabled devices =
      ap (map (create_element print make)) (probe_loop_lem nvmm_enabled devices [])
      ∙ map-offered nvmm_enabled devices
