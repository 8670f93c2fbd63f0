-- ===== src/Storage/Wal/Append.antt =====
-- src/storage/wal.rs: appending, on a leader and on a replica.
use dewdb.Prelude.{
  ℕ, ◌+◌, ◌%◌, ◌^◌, Bool, true, false, not, ◌&&◌, ◌||◌, Bytes, leb, ltb, ◌==◌, if◌then◌else◌,
  length, take, drop, none, some,
}
use dewdb.Storage.Frame.{FrameHeader, header_len, max_record_size, parse, payload_valid}
use dewdb.Storage.Entry.{LogEntry, Codec}
use dewdb.Storage.Collection.{Collection, add_word}
use dewdb.Storage.Collection.Stage.{stage_appended, staged_term}
use dewdb.Storage.Collection.Apply.{record_watermark_once}
use dewdb.Storage.Wal.Writer.{
  Wal, invalid_data, invalid_input, not_found, io_failed, Result, ok, err, FrameWrite, write_failed,
  write_done, rotate, rotate_past_torn_write, push_frame,
}
use dewdb.Storage.Wal.Rewind.{Store, Io, heal_fenced_cut, rewind_to}

pub data ReplicaApply : Type 0 where
  applied : (lsn : ℕ) → ReplicaApply
  duplicate : (last_lsn : ℕ) → ReplicaApply
  gap divergent : (last_lsn last_term : ℕ) → ReplicaApply

module _ {Value : Type 0} where
  -- The frame written behind the log, and staged.
  unfoldable pub put_frame :
      Codec Value
      → FrameWrite
      → FrameHeader
      → LogEntry Value
      → Bytes
      → Store Value
      → Store Value × Result ReplicaApply
  unfolding rotate_past_torn_write push_frame stage_appended
  put_frame codec (write_failed torn next_opened) header entry payload s =
      (record s { wal = rotate_past_torn_write torn next_opened s.wal }, err io_failed)
  put_frame codec write_done header entry payload s = (
    record {
      col =
          stage_appended codec header.lsn header.term entry s.wal.current_wal_id
            s.wal.current_wal_size payload s.col;
      wal = push_frame header payload s.wal;
    },
    ok (applied header.lsn),
  )

  unfoldable pub write_frame :
      Codec Value
      → Io
      → FrameHeader
      → LogEntry Value
      → Bytes
      → Store Value
      → Store Value × Result ReplicaApply
  unfolding rotate put_frame
  write_frame codec io header entry payload s =
      let turned = rotate io.rotation s.wal in
      if not turned.1
      then (record s { wal = turned.0 }, err io_failed)
      else put_frame codec io.write header entry payload (record s { wal = turned.0 })

  -- `staged_term(lsn) == Some(term)`
  unfoldable pub staged_at_term : ℕ → ℕ → Collection Value → Bool
  unfolding staged_term
  staged_at_term lsn term c = elim (staged_term lsn c) [ none ↦ false | some t ↦ t == term ]

  -- What becomes of the frame once the log ends where it has to, or does not.
  unfoldable pub after_rewind :
      Codec Value
      → Io
      → FrameHeader
      → LogEntry Value
      → Bytes
      → (last last_term : ℕ) → Store Value × Result Bool
      → Store Value × Result ReplicaApply
  unfolding write_frame
  after_rewind codec io header entry payload last last_term (s, err e) = (s, err e)
  after_rewind codec io header entry payload last last_term (s, ok false) =
      (s, ok (divergent last last_term))
  after_rewind codec io header entry payload last last_term (s, ok true) =
      write_frame codec io header entry payload s

  -- A frame that the log does not hold yet.
  unfoldable pub follow_frame :
      Codec Value
      → Io
      → FrameHeader
      → LogEntry Value
      → Bytes
      → Store Value
      → Store Value × Result ReplicaApply
  unfolding write_frame rewind_to after_rewind
  follow_frame codec io header entry payload s =
      let last = s.wal.last_appended_lsn in
      let last_term = s.wal.last_appended_term in
      if ltb last header.prev_lsn
      then (s, ok (gap last last_term))
      else if ltb header.prev_lsn last
      then after_rewind codec io header entry payload last last_term
          (rewind_to io header.prev_lsn header.prev_term s)
      else if not (header.prev_term == last_term)
      then (s, ok (divergent last last_term))
      else write_frame codec io header entry payload s

  unfoldable pub is_duplicate : FrameHeader → Store Value → Bool
  unfolding staged_at_term
  is_duplicate header s =
      leb header.lsn s.wal.last_appended_lsn
      && (leb header.lsn s.col.applied_lsn || staged_at_term header.lsn header.term s.col)

  -- `append_raw_frame` from where the log is whole.
  unfoldable pub accept_frame :
      Codec Value
      → Io
      → FrameHeader
      → LogEntry Value
      → Bytes
      → Store Value
      → Store Value × Result ReplicaApply
  unfolding is_duplicate follow_frame
  accept_frame codec io header entry payload s =
      if is_duplicate header s
      then (s, ok (duplicate s.wal.last_appended_lsn))
      else follow_frame codec io header entry payload s

  unfoldable pub append_decoded :
      Codec Value
      → Io
      → FrameHeader
      → LogEntry Value
      → Bytes
      → Store Value
      → Store Value × Result ReplicaApply
  unfolding record_watermark_once heal_fenced_cut accept_frame
  append_decoded codec io header entry payload s =
      let noted = record_watermark_once io.watermark_written s.col in
      let begun : Store Value = record s { col = noted.0 } in
      if not noted.1
      then (begun, err io_failed)
      else if s.wal.released
      then (begun, err not_found)
      else let healed = heal_fenced_cut io.heal begun in
        if not healed.1
        then (healed.0, err io_failed)
        else accept_frame codec io header entry payload healed.0

  unfoldable pub append_payload :
      Codec Value → Io → FrameHeader → Bytes → Store Value → Store Value × Result ReplicaApply
  unfolding payload_valid append_decoded
  append_payload codec io header payload s =
      if not (payload_valid codec.crc32 header payload)
      then (s, err invalid_data)
      else elim (codec.from_slice payload) [
        | none ↦ (s, err invalid_data)
        | some entry ↦ append_decoded codec io header entry payload s
      ]

  unfoldable pub append_raw_frame :
      Codec Value → Io → Bytes → Store Value → Store Value × Result ReplicaApply
  unfolding parse append_payload
  append_raw_frame codec io bytes s = elim (parse bytes) [
    | none ↦ (s, err invalid_data)
    | some header ↦
        if ltb (length bytes) (header_len + header.len)
        then (s, err invalid_data)
        else append_payload codec io header (take header.len (drop header_len bytes)) s
  ]

  -- The leader's frame, once its position is taken.
  unfoldable pub write_led :
      Codec Value → Io → LogEntry Value → ℕ → Store Value → Store Value × Result ℕ
  unfolding rotate rotate_past_torn_write push_frame stage_appended add_word
  write_led codec io entry term s =
      let payload = codec.to_vec entry in
      let turned = rotate io.rotation s.wal in
      let lsn = add_word turned.0.db_next_lsn 1 in
      let numbered : Wal = record turned.0 { db_next_lsn = lsn } in
      let header : FrameHeader = record {
        len = length payload % 2 ^ 32;
        crc = codec.crc32 payload;
        term = term;
        lsn = lsn;
        prev_lsn = numbered.last_appended_lsn;
        prev_term = numbered.last_appended_term;
      } in
      if not turned.1 then (record s { wal = turned.0 }, err io_failed) else elim io.write [
        | write_failed torn next_opened ↦
            (record s { wal = rotate_past_torn_write torn next_opened numbered }, err io_failed)
        | write_done ↦ (
          record {
            col =
                stage_appended codec lsn term entry numbered.current_wal_id
                  numbered.current_wal_size payload s.col;
            wal = push_frame header payload numbered;
          },
          ok lsn,
        )
      ]

  unfoldable pub append :
      Codec Value → Io → LogEntry Value → ℕ → Store Value → Store Value × Result ℕ
  unfolding record_watermark_once heal_fenced_cut write_led
  append codec io entry term s =
      let noted = record_watermark_once io.watermark_written s.col in
      let begun : Store Value = record s { col = noted.0 } in
      let healed = heal_fenced_cut io.heal begun in
      if ltb max_record_size (length (codec.to_vec entry))
      then (s, err invalid_input)
      else if not noted.1
      then (begun, err io_failed)
      else if s.wal.released
      then (begun, err not_found)
      else if not healed.1
      then (healed.0, err io_failed)
      else write_led codec io entry term healed.0
