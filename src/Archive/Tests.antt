-- ===== src/Archive/Tests.antt =====
-- apps/api/src/archiving on a store in a directory, with a hash that has no collisions.
use validateur_facturx.Common.{◌≡◌, refl, [], ◌∷◌, ◌++◌, some, ok, true}
use validateur_facturx.Common.Text.{Text, codes}
use validateur_facturx.DraftCheck.Dates.{from_month, from_day, roll}
use validateur_facturx.Archive.Store.{Bytes, ArtifactStore}
use validateur_facturx.Archive.Filesystem.{
  Files, read_file, key_for, path_for, put_at, put_file, filesystem_store,
}
use validateur_facturx.Archive.WriteOnce.{filesystem_store-IsWriteOnce}
use validateur_facturx.Archive.Service.{
  ArchiveEntry, SealRequest, new_entry, record_entry, seal, retention_until,
}
use validateur_facturx.Archive.Sealed.{IsArchive, IsInserted}
use validateur_facturx.Archive.Sealed.Refines.{seal-IsInserted}

abbrev hash_of : Bytes → Text
hash_of bytes = bytes

abbrev resolved : Text → Text → Text
resolved root key = root ++ b'/' ∷ key

abbrev directory : ArtifactStore Files
directory = filesystem_store hash_of resolved (codes "/srv") (λ path. true)

abbrev a_request : SealRequest
a_request = record {
  tenant_id = codes "t1";
  invoice_id = some (codes "i1");
  bytes = codes "<xml/>";
  mime_type = codes "application/xml";
  artifact_kind = codes "cii-xml";
  extension = codes "xml";
  issued_at = record { year = 2028; month = 2; day = 29 };
}

-- Ten years after the 29th of February 2028 is the 1st of March 2038.
leap_retention :
    retention_until (record { year = 2028; month = 2; day = 29 }) 10
    ≡ record { year = 2038; month = 3; day = 1 }
unfolding retention_until from_month from_day roll
leap_retention = refl

abbrev an_entry : ArchiveEntry
an_entry = record {
  id = codes "e1";
  tenant_id = codes "t1";
  invoice_id = some (codes "i1");
  content_hash = codes "<xml/>";
  storage_key = codes "<x/ml/<xml/>.xml";
  mime_type = codes "application/xml";
  size_bytes = 6;
  artifact_kind = codes "cii-xml";
  sealed_at = 7;
  retention_until = record { year = 2038; month = 3; day = 1 };
}

abbrev files_after : Files
files_after = (codes "/srv/<x/ml/<xml/>.xml", codes "<xml/>") ∷ []

sealed :
    seal hash_of directory [] [] (codes "e1") 7 a_request
    ≡ ok (an_entry, an_entry ∷ [], files_after)
unfolding seal put_file put_at path_for key_for read_file record_entry new_entry retention_until
    from_month from_day roll
sealed = refl

empty-IsArchive : IsArchive hash_of directory [] []
empty-IsArchive = record { readable = tt; found = tt }

seal-IsInserted_example :
    IsInserted hash_of directory [] [] a_request an_entry files_after (an_entry ∷ [])
seal-IsInserted_example =
    seal-IsInserted hash_of directory
      (filesystem_store-IsWriteOnce hash_of resolved (codes "/srv") (λ path. true))
      (λ a b same. same) [] [] empty-IsArchive (codes "e1") 7 a_request an_entry (an_entry ∷ [])
      files_after tt sealed
