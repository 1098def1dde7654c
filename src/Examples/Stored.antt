-- ===== src/Examples/Stored.antt =====
-- name_server/: the metadata file.
use distributed_documentatio.NameServer.Files.{FileMetadata}
use distributed_documentatio.Acl.{Acl, acl_contains, same_user}
use distributed_documentatio.Acl.Laws.{is_distinct}
use distributed_documentatio.NameServer.Metadata.Saved.{AreStored, files_returned}
use distributed_documentatio.Examples.Server.{file}
use distributed_documentatio.NameServer.Csv.Trip.{AreNames}
use distributed_documentatio.NameServer.Metadata.{ns_load_metadata, ns_save_metadata, entry_fields}
use distributed_documentatio.Base.{
  refl, codes, ◌≡◌, [], true, strn_eq, ◌∷◌, length, str_eq, ◌≤◌, take, arith, ◌<◌, all, decimal,
  digits_before, inr, inl,
}
use distributed_documentatio.NameServer.Csv.{join_commas}
use distributed_documentatio.Names.{validate_username, is_user_text, validate_filename}
use distributed_documentatio.NameServer.Metadata.Trip.{IsListed, IsStored}
use distributed_documentatio.Text.{is_alnum}
use distributed_documentatio.Protocol.Fields.{is_plain}
use distributed_documentatio.Protocol.Stream.Framing.{no_newline}
use distributed_documentatio.Text.Digits.{int_text}
use distributed_documentatio.Protocol.{join_fields}

abbrev folder : FileMetadata
folder = record file {
  filename = codes "docs";
  ss_ip = [];
  ss_port = 0;
  is_directory = true;
  last_modified_user = [];
  write_access_users = codes "ann" ∷ codes "bob" ∷ [];
}

list-IsListed :
    (us : Acl)
    → AreNames us
    → is_distinct us ≡ true
    → length us ≤ 2
    → length (join_commas us) < 8
    → IsListed us
list-IsListed us names once fit short = record {
  names = names;
  once = once;
  fit = omega (arith, fit);
  short = omega (arith, short);
}

bob-IsListed : IsListed (codes "bob" ∷ [])
unfolding is_distinct acl_contains same_user strn_eq str_eq take validate_username is_user_text
    is_alnum all join_commas
bob-IsListed = list-IsListed (codes "bob" ∷ []) (refl, tt) refl (omega arith) (omega arith)

file-IsStored : IsStored file
unfolding is_distinct acl_contains same_user strn_eq str_eq take validate_username is_user_text
    is_alnum all join_commas validate_filename is_plain no_newline entry_fields decimal
    digits_before int_text join_fields
file-IsStored = record {
  saved = record {
    name = refl;
    owner = (refl, omega arith);
    ip = (refl, omega arith);
    accessed = inr refl;
    modified = inr refl;
  };
  one_line = refl;
  fits = omega arith;
  readers = bob-IsListed;
  writers = bob-IsListed;
}

folder-IsStored : IsStored folder
unfolding is_distinct acl_contains same_user strn_eq str_eq take validate_username is_user_text
    is_alnum all join_commas validate_filename is_plain no_newline entry_fields decimal
    digits_before int_text join_fields
folder-IsStored = record {
  saved = record {
    name = refl;
    owner = (refl, omega arith);
    ip = (refl, omega arith);
    accessed = inr refl;
    modified = inl refl;
  };
  one_line = refl;
  fits = omega arith;
  readers = bob-IsListed;
  writers =
      list-IsListed (codes "ann" ∷ codes "bob" ∷ []) (refl, (refl, tt)) refl (omega arith)
        (omega arith);
}

files_returned_example :
    (ns_load_metadata (ns_save_metadata (file ∷ folder ∷ []))).files ≡ file ∷ folder ∷ []
unfolding AreStored
files_returned_example =
    files_returned (file ∷ folder ∷ []) (file-IsStored, (folder-IsStored, tt)) (omega arith)
