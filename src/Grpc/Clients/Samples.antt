-- ===== src/Grpc/Clients/Samples.antt =====
-- A value of the interface of Grpc.Clients, which lets tests run.
use silverwind.Prelude.{String, some, [], ◌∷◌, ok, string_eq}
use silverwind.External.Samples.{plain_codecs}
use silverwind.Grpc.Clients.{Tonic}

abbrev pub plain_tonic : Tonic plain_codecs
plain_tonic = record {
  Endpoint = String;
  Channel = String;
  DescriptorPool = String;
  Service = String;
  Method = String;
  MessageDescriptor = String;
  DynamicMessage = String;
  from_shared = λ s. ok s;
  connect = λ s. ok s;
  read = λ s. ok [];
  decode = λ b. ok "";
  get_service_by_name = λ pool s. some s;
  full_name = λ s. s;
  methods = λ s. "Hello" ∷ [];
  name = λ m. m;
  input = λ m. m;
  output = λ m. m;
  deserialize = λ d b. ok "";
  path = λ s. ok tt;
  ready = λ c. ok tt;
  unary = λ c m s d. ok m;
  to_json = λ m. ok m;
}
