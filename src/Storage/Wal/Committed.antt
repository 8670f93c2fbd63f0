-- ===== src/Storage/Wal/Committed.antt =====
-- A replica that is sent a frame (`append_raw_frame` of src/storage/wal.rs) keeps its committed
-- frames, whatever the frame holds and whatever fails.
use dewdb.Prelude.{
  ℕ, ◌+◌, ◌≤◌, ◌<◌, ◌≡◌, refl, sym, ap, ◌∙◌, inl, inr, Bool, true, false, not, Bytes, ltb, ◌==◌,
  if◌then◌else◌, keep, length, take, drop, none, arith, Bool-cases, Option-cases,
}
use dewdb.Storage.Frame.{FrameHeader, header_len, parse, payload_valid}
use dewdb.Storage.Entry.{LogEntry, Codec}
use dewdb.Storage.Collection.{Collection}
use dewdb.Storage.Collection.Apply.{record_watermark_once, persist_watermark_full}
use mathlib.Core.Path.{subst}
use dewdb.Storage.Wal.Recent.{above_floor}
use dewdb.Storage.Wal.Cut.{Tail, through, file_spots}
use dewdb.Storage.Wal.Writer.{Result, ok, err, io_failed, not_found}
use dewdb.Storage.Wal.Rewind.{Store, Io, heal, heal_fenced_cut, rewind_to}
use dewdb.Storage.Wal.Append.{
  gap, divergent, write_frame, after_rewind, follow_frame, is_duplicate, accept_frame,
  append_decoded, append_payload, append_raw_frame,
}
use dewdb.Storage.Wal.Written.{committed_frames, committed-if, committed-write_frame}
use dewdb.Storage.Wal.Rewound.{spots_of, IsAligned, rewind_keeps_committed}

module _ {Value : Type 0} where
  committed-after_rewind :
      (codec : Codec Value) (io : Io) (n : ℕ) (header : FrameHeader) (entry : LogEntry Value)
      (payload : Bytes) (last last_term : ℕ) (r : Store Value × Result Bool)
      → n < header.lsn
      → committed_frames n (after_rewind codec io header entry payload last last_term r).0.wal
        ≡ committed_frames n r.0.wal
  unfolding after_rewind
  committed-after_rewind codec io n header entry payload last last_term (s, err e) h = refl
  committed-after_rewind codec io n header entry payload last last_term (s, ok false) h = refl
  committed-after_rewind codec io n header entry payload last last_term (s, ok true) h =
      committed-write_frame codec io n header entry payload s h

  committed-follow_frame :
      (codec : Codec Value) (io : Io) (start : Tail) (header : FrameHeader) (entry : LogEntry Value)
      (payload : Bytes) (s : Store Value)
      → IsAligned start s
      → s.wal.fence ≡ none
      → s.col.applied_lsn < header.lsn
      → committed_frames s.col.applied_lsn (follow_frame codec io header entry payload s).0.wal
        ≡ through s.col.applied_lsn s.wal.files
  unfolding follow_frame
  committed-follow_frame codec io start header entry payload s al e h =
      let n = s.col.applied_lsn in
      let last = s.wal.last_appended_lsn in
      let last_term = s.wal.last_appended_term in
      let here : committed_frames n s.wal ≡ through n s.wal.files = rw e refl in
      let written = write_frame codec io header entry payload s in
      let back =
        after_rewind codec io header entry payload last last_term
          (rewind_to io header.prev_lsn header.prev_term s) in
      let checked =
        if not (header.prev_term == last_term)
        then (s, ok (divergent last last_term))
        else written in
      committed-if n (ltb last header.prev_lsn) (s, ok (gap last last_term))
        (if ltb header.prev_lsn last then back else checked) (through n s.wal.files) here
        (committed-if n (ltb header.prev_lsn last) back checked (through n s.wal.files)
          (committed-after_rewind codec io n header entry payload last last_term
              (rewind_to io header.prev_lsn header.prev_term s) h
            ∙ (rewind_keeps_committed start io header.prev_lsn header.prev_term s al e).1)
          (committed-if n (not (header.prev_term == last_term)) (s, ok (divergent last last_term))
            written (through n s.wal.files) here
            (committed-write_frame codec io n header entry payload s h ∙ here)))

  is_new :
      (header : FrameHeader) (s : Store Value)
      → s.col.applied_lsn ≤ s.wal.last_appended_lsn
      → is_duplicate header s ≡ false
      → s.col.applied_lsn < header.lsn
  unfolding is_duplicate
  is_new header s le e = ground arith

  committed-accept_frame :
      (codec : Codec Value) (io : Io) (start : Tail) (header : FrameHeader) (entry : LogEntry Value)
      (payload : Bytes) (s : Store Value)
      → IsAligned start s
      → s.wal.fence ≡ none
      → s.col.applied_lsn ≤ s.wal.last_appended_lsn
      → committed_frames s.col.applied_lsn (accept_frame codec io header entry payload s).0.wal
        ≡ through s.col.applied_lsn s.wal.files
  unfolding accept_frame
  committed-accept_frame codec io start header entry payload s al e le =
      elim (Bool-cases (is_duplicate header s)) [
        | inl d ↦ rw (d, accept_frame) (rw e refl)
        | inr d ↦
            rw (d, accept_frame)
              (committed-follow_frame codec io start header entry payload s al e
                (is_new header s le d))
      ]

  -- Noting the position first changes neither the staged frames nor the position.
  noted :
      (written : Bool) (c : Collection Value)
      → ((record_watermark_once written c).0.pending ≡ c.pending)
        × ((record_watermark_once written c).0.applied_lsn ≡ c.applied_lsn)
  unfolding record_watermark_once persist_watermark_full
  noted written c = elim (Bool-cases c.watermark_recorded) [
    | inl e ↦ rw (e, record_watermark_once) (refl, refl)
    | inr e ↦ (elim (Bool-cases written) [
      | inl w ↦ rw (e, w, record_watermark_once, persist_watermark_full) (refl, refl)
      | inr w ↦ rw (e, w, record_watermark_once, persist_watermark_full) (refl, refl)
    ])
  ]

  unfenced :
      (io : Io) (s : Store Value) → s.wal.fence ≡ none → heal_fenced_cut io.heal s ≡ (s, true)
  unfolding heal_fenced_cut heal
  unfenced io s e = ap (λ fence. heal fence io.heal s) e

  committed-append_decoded :
      (codec : Codec Value) (io : Io) (start : Tail) (header : FrameHeader) (entry : LogEntry Value)
      (payload : Bytes) (s : Store Value)
      → IsAligned start s
      → s.wal.fence ≡ none
      → s.col.applied_lsn ≤ s.wal.last_appended_lsn
      → committed_frames s.col.applied_lsn (append_decoded codec io header entry payload s).0.wal
        ≡ through s.col.applied_lsn s.wal.files
  unfolding append_decoded
  committed-append_decoded codec io start header entry payload s al e le =
      let n = s.col.applied_lsn in
      let step = record_watermark_once io.watermark_written s.col in
      let same = noted io.watermark_written s.col in
      let begun : Store Value = record s { col = step.0 } in
      let here : committed_frames n s.wal ≡ through n s.wal.files = rw e refl in
      let healed = heal_fenced_cut io.heal begun in
      let aligned : IsAligned start begun = (
        al.0,
        ap spots_of same.0
            ∙ al.1
            ∙ ap (λ m. keep (above_floor m) (file_spots s.wal.files)) (sym same.1),
      ) in
      let accepted : committed_frames n (accept_frame codec io header entry payload begun).0.wal
          ≡ through n s.wal.files =
        subst
          (λ m.
            committed_frames m (accept_frame codec io header entry payload begun).0.wal
            ≡ through m s.wal.files)
          same.1
          (committed-accept_frame codec io start header entry payload begun aligned e
            (omega (arith, same.1, le))) in
      let whole : healed ≡ (begun, true) = unfenced io begun e in
      committed-if n (not step.1) (begun, err io_failed)
        (if s.wal.released
          then (begun, err not_found)
          else if not healed.1
          then (healed.0, err io_failed)
          else accept_frame codec io header entry payload healed.0)
        (through n s.wal.files) here
        (committed-if n s.wal.released (begun, err not_found)
          (if not healed.1
            then (healed.0, err io_failed)
            else accept_frame codec io header entry payload healed.0)
          (through n s.wal.files) here
          (subst
            (λ (h : Store Value × Bool).
              committed_frames n
                (if not h.1
                  then (h.0, err io_failed)
                  else accept_frame codec io header entry payload h.0).0.wal
              ≡ through n s.wal.files)
            (sym whole) accepted))

  committed-append_payload :
      (codec : Codec Value) (io : Io) (start : Tail) (header : FrameHeader) (payload : Bytes)
      (s : Store Value)
      → IsAligned start s
      → s.wal.fence ≡ none
      → s.col.applied_lsn ≤ s.wal.last_appended_lsn
      → committed_frames s.col.applied_lsn (append_payload codec io header payload s).0.wal
        ≡ through s.col.applied_lsn s.wal.files
  unfolding append_payload
  committed-append_payload codec io start header payload s al e le =
      elim (Bool-cases (payload_valid codec.crc32 header payload)) [
        | inr v ↦ rw (v, append_payload) (rw e refl)
        | inl v ↦ (elim (Option-cases (codec.from_slice payload)) [
          | inl none_read ↦ rw (v, none_read, append_payload) (rw e refl)
          | inr (entry, read) ↦
              rw (v, read, append_payload)
                (committed-append_decoded codec io start header entry payload s al e le)
        ])
      ]

  -- A replica never loses a committed frame to what it is sent. The frames of its log follow each
  -- other, those above the committed position are staged with their places, the position is not
  -- beyond the log's tail, and no truncation is under way. Then for any bytes at all, and however
  -- each step on the file system ends, the log that is left, where a truncation under way counts
  -- as made, has the same committed frames.
  pub append_raw_frame_lem :
      (codec : Codec Value) (io : Io) (start : Tail) (bytes : Bytes) (s : Store Value)
      → IsAligned start s
      → s.wal.fence ≡ none
      → s.col.applied_lsn ≤ s.wal.last_appended_lsn
      → committed_frames s.col.applied_lsn (append_raw_frame codec io bytes s).0.wal
        ≡ through s.col.applied_lsn s.wal.files
  unfolding append_raw_frame
  append_raw_frame_lem codec io start bytes s al e le = elim (Option-cases (parse bytes)) [
    | inl n ↦ rw (n, append_raw_frame) (rw e refl)
    | inr (header, h) ↦ (elim (Bool-cases (ltb (length bytes) (header_len + header.len))) [
      | inl short ↦ rw (h, short, append_raw_frame) (rw e refl)
      | inr long ↦
          rw (h, long, append_raw_frame)
            (committed-append_payload codec io start header
              (take header.len (drop header_len bytes)) s al e le)
    ])
  ]
