-- ===== src/Examples/Instances.antt =====
-- Packages to run the model with: a map that is an association list, and encoders that write a
-- value, which is a run of bytes, as it is.
use signalg.Base.{
  ◌≡◌, refl, true, if◌then◌else◌, List, [], ◌∷◌, ◌++◌, Bytes, bytes_eq, length, none, some, arith,
}
use signalg.Base.Assoc.{
  lookup, erase, DistinctKeys, lookup-erase, erase-DistinctKeys, bytes_eq_self,
}
use signalg.Errors.{ok}
use signalg.Registry.ShardMap.{ShardMap, IsMap}
use signalg.Protocol.Codec.{Encoders, AppendsProto}

abbrev pub AssocMap : Type 0 → Type 0
AssocMap V = (es : List (Bytes × V)) × DistinctKeys es

module _ {V : Type 0} where
  pub erased_head :
      (k : Bytes) (es : List (Bytes × V)) → DistinctKeys es → lookup k (erase k es) ≡ none
  erased_head k es d = ground (arith, lookup-erase k k es d, bytes_eq_self k)

  lookup_set :
      (k j : Bytes) (v : V) (es : List (Bytes × V))
      → DistinctKeys es
      → lookup j ((k, v) ∷ erase k es) ≡ (if bytes_eq k j then some v else lookup j es)
  unfolding lookup
  lookup_set k j v es d = ground (arith, lookup-erase k j es d)

abbrev pub assoc_map : ShardMap
assoc_map = record {
  Map = AssocMap;
  new = ([], tt);
  get = λ m k. lookup k m.0;
  set = λ m k v. ((k, v) ∷ erase k m.0, (erased_head k m.0 m.1, erase-DistinctKeys k m.0 m.1));
  delete = λ m k. (erase k m.0, erase-DistinctKeys k m.0 m.1);
  len = λ m. length m.0;
  entries = λ m. m.0;
}

pub assoc_map-IsMap : IsMap assoc_map
unfolding lookup
assoc_map-IsMap = record {
  get-new = λ k. refl;
  get-set = λ m k j v. lookup_set k j v m.0 m.1;
  get-delete = λ m k j. lookup-erase k j m.0 m.1;
  lookup-entries = λ m k. refl;
  entries-DistinctKeys = λ m. m.1;
  len-entries = λ m. refl;
}

abbrev pub plain_encoders : Encoders
plain_encoders = record {
  Value = Bytes;
  msgpack_marshal = λ v. ok v;
  msgpack_unmarshal = λ payload target. ok payload;
  json_marshal = λ v. ok v;
  json_unmarshal = λ payload target. ok payload;
  is_proto_message = λ v. true;
  proto_marshal_append = λ dst v. ok (dst ++ v);
  proto_unmarshal = λ payload target. ok payload;
}

pub plain_encoders-AppendsProto : AppendsProto plain_encoders
plain_encoders-AppendsProto dst v = refl
