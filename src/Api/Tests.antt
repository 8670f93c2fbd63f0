-- ===== src/Api/Tests.antt =====
-- Runs of the theorems on src/api/precondition.rs.
use dewdb.Prelude.{◌≡◌, not, false, bytes_eq, [], ◌∷◌, none, some}
use dewdb.Api.Precondition.{
  Version, opaque_tag, etag, Tags, tag_list, condition_holds, parsed, parse_tags,
}
use dewdb.Api.Precondition.Etag.{etag_lem}

abbrev read : Version
read = record { term = 3; lsn = 1_204 }

abbrev its_tag : Tags
its_tag = tag_list (record { weak = false; opaque = opaque_tag read } ∷ [])

etag_lem_example :
    (parse_tags (etag read) ≡ parsed its_tag)
    × (condition_holds (record { if_match = some its_tag; if_none_match = none }) (some read)
        ≡ bytes_eq (opaque_tag read) (opaque_tag read))
    × (condition_holds (record { if_match = none; if_none_match = some its_tag }) (some read)
        ≡ not (bytes_eq (opaque_tag read) (opaque_tag read)))
etag_lem_example = etag_lem read (some read)
