-- ===== src/Remote/Command/Output.antt =====
-- What an executed command returns of its output, and what a download returns.
use aero_nyx_private_ed.Base.{
  ℕ, ◌≤◌, ◌<◌, ◌≡◌, ◌↔◌, inl, inr, sym, ap, ◌∙◌, true, false, not, List, none, some, Text, ltb,
  length, take, drop, ok, arith, Bool-cases, reject_if, ok_or, >>=-eq-ok, >>-eq-ok, ok_injective,
  ok_or-some, length-take-le,
}
use aero_nyx_private_ed.Remote.Command.{
  RemoteCommandConfig, RemoteCommandData, invalid_command, file_not_found, invalid_path,
  system_error, file_too_large, Metadata, Machine, Stream, validate_path,
}
use aero_nyx_private_ed.Remote.Command.Permits.{Permits, validate_path_iff}
use aero_nyx_private_ed.Remote.Command.Execute.{
  starts_inside, Shown, whole, whole_limit, shown, shown_within, max_output_size, max_total_size,
}
use aero_nyx_private_ed.Remote.Command.Files.{Base64, Downloaded, size_or, handle_download}

module _ (limit : ℕ) (s : Stream) where
  cut_panics :
      limit < length s.text → starts_inside (drop limit s.text) ≡ true → shown_within limit s ≡ none
  unfolding shown_within
  cut_panics long inside = ground arith

  cut_shown :
      limit < length s.text
      → starts_inside (drop limit s.text) ≡ false
      → (r : Shown) × (shown_within limit s ≡ some r) × (length r.text ≤ limit)
  unfolding shown_within
  cut_shown long between = (
    record { text = take limit s.text; notice = whole_limit },
    ground (arith, long, between),
    ground (arith, length-take-le limit s.text),
  )

  shown_whole :
      length s.text ≤ limit → shown_within limit s ≡ some (record { text = s.text; notice = whole })
  unfolding shown_within
  shown_whole short = ground arith

  shown_within_lem :
      ((shown_within limit s ≡ none)
        ↔ ((limit < length s.text) × (starts_inside (drop limit s.text) ≡ true)))
      × ((r : Shown) → shown_within limit s ≡ some r → length r.text ≤ limit)
  shown_within_lem = elim (Bool-cases (ltb limit (length s.text))) [
    | inr short ↦
        let whole_text = shown_whole (ground (arith, short)) in
        (
          (λ h. cc, λ (long, inside). absurd (ground (arith, short))),
          λ r h. ground (arith, short, whole_text, h),
        )
    | inl long ↦ elim (Bool-cases (starts_inside (drop limit s.text))) [
      | inl inside ↦
          let panic = cut_panics (ground (arith, long)) inside in
          ((λ h. (ground (arith, long), inside), λ _. panic), λ r h. cc)
      | inr between ↦
          let (r', found, fits) = cut_shown (ground (arith, long)) between in
          ((λ h. cc, λ (_, inside). cc), λ r h. ground (arith, found, fits, h))
    ]
  ]

-- Where both streams together are within the total, a stream is shown whole up to 32 KiB and cut
-- there beyond it; the handler panics exactly when the cut falls inside a character.
pub shown-small :
    (share : ℕ → ℕ → ℕ) (total : ℕ) (s : Stream)
    → total ≤ max_total_size
    → ((shown share total s ≡ none) ↔ (
        (max_output_size < length s.text) × (starts_inside (drop max_output_size s.text) ≡ true)))
      × ((r : Shown) → shown share total s ≡ some r → length r.text ≤ max_output_size)
unfolding shown
shown-small share total s small =
    let e : ltb max_total_size total ≡ false = ground arith in
    rw e (shown_within_lem max_output_size s)

-- A download returns the content of a file that the mode permits, encoded, and only of one that is
-- within the size limit: that of the request, if it names one, whatever the configuration says, and
-- else that of the configuration.
pub handle_download_ok :
    (b : Base64) (config : RemoteCommandConfig) (m : Machine) (c : RemoteCommandData)
    (r : Downloaded)
    → handle_download b config m c ≡ ok r
    → (p : Text) × (d : Metadata) × (bytes : List ℕ) × Permits config p
      × (m.metadata p ≡ some d)
      × (d.is_file ≡ true)
      × (d.len ≤ size_or c.max_size config.max_file_size)
      × (m.read p ≡ some bytes)
      × (b.decode r.content ≡ some bytes)
unfolding handle_download
handle_download_ok b config m c r h =
    let (path, _, h1) = >>=-eq-ok (ok_or c.path invalid_command) _ h in
    let (p, valid, h2) = >>=-eq-ok (validate_path config m path) _ h1 in
    let (_, h3) = >>-eq-ok (reject_if (not (m.exists p)) file_not_found) _ h2 in
    let (d, known, h4) = >>=-eq-ok (ok_or (m.metadata p) system_error) _ h3 in
    let (file, h5) = >>-eq-ok (reject_if (not d.is_file) invalid_path) _ h4 in
    let (fits, h6) =
      >>-eq-ok (reject_if (ltb (size_or c.max_size config.max_file_size) d.len) file_too_large) _
        h5 in
    let (bytes, read, h7) = >>=-eq-ok (ok_or (m.read p) system_error) _ h6 in
    (
      p,
      d,
      bytes,
      ((validate_path_iff config m path p).0 valid).1,
      ok_or-some (m.metadata p) system_error known,
      ground (arith, file),
      ground (arith, fits),
      ok_or-some (m.read p) system_error read,
      ap (λ (x : Downloaded). b.decode x.content) (sym (ok_injective h7)) ∙ b.decode-encode bytes,
    )
