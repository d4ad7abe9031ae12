-- ===== src/Protocol/Enums.antt =====
-- protocol/hologram.pb.go: the numbers and the names of the two enums. `enum_name` is golang/protobuf's
-- `EnumName`. An enum is one of its constants here, so that `UnmarshalJSON`, which takes any number, is
-- left out.
use hologram.Prelude.{ℕ, String, ◌≡◌, refl, Option, some, none, List, [], ◌∷◌, ◌==◌, if◌then◌else◌}
use hologram.Prelude.Dict.{Dict, lookup}
use hologram.Protocol.Message.{Source, other, hologram_server, hologram_client, hologram_cli}
use hologram.Protocol.Ping.{RequestResponse, request, response}

-- A map from numbers to texts.
abbrev Names : Type 0
Names = List (ℕ × String)

unfoldable name_of : ℕ → Names → Option String
name_of n [] = none
name_of n ((k, name) ∷ rest) = if k == n then some name else name_of n rest

unfoldable source_number : Source → ℕ
source_number other = 0
source_number hologram_server = 1
source_number hologram_client = 2
source_number hologram_cli = 3

abbrev message_source_name : Names
message_source_name =
    (0, "OTHER") ∷ (1, "HOLOGRAM_SERVER") ∷ (2, "HOLOGRAM_CLIENT") ∷ (3, "HOLOGRAM_CLI") ∷ []

abbrev message_source_value : Dict ℕ
message_source_value =
    ("OTHER", 0) ∷ ("HOLOGRAM_SERVER", 1) ∷ ("HOLOGRAM_CLIENT", 2) ∷ ("HOLOGRAM_CLI", 3) ∷ []

unfoldable request_response_number : RequestResponse → ℕ
request_response_number request = 1
request_response_number response = 2

abbrev ping_request_response_name : Names
ping_request_response_name = (1, "REQUEST") ∷ (2, "RESPONSE") ∷ []

abbrev ping_request_response_value : Dict ℕ
ping_request_response_value = ("REQUEST", 1) ∷ ("RESPONSE", 2) ∷ []

-- A pointer to a copy.
unfoldable source_enum : Source → Option Source
source_enum x = some x

unfoldable request_response_enum : RequestResponse → Option RequestResponse
request_response_enum x = some x

module _ (enum_name : Names → ℕ → String) where
  unfoldable source_string : Source → String
  source_string x = enum_name message_source_name (source_number x)

  unfoldable request_response_string : RequestResponse → String
  request_response_string x = enum_name ping_request_response_name (request_response_number x)

  -- If `enum_name` looks a number up where the map has it, the name that a constant is shown by stands in
  -- the map of values with the number of that constant.
  lookup-source_string :
      ((names : Names) (n : ℕ) (name : String)
        → name_of n names ≡ some name
        → enum_name names n ≡ name)
      → (x : Source) → lookup (source_string x) message_source_value ≡ some (source_number x)
  unfolding source_string source_number lookup
  lookup-source_string names other =
      rw (names message_source_name 0 "OTHER" (unfold name_of in refl)) refl
  lookup-source_string names hologram_server =
      rw (names message_source_name 1 "HOLOGRAM_SERVER" (unfold name_of in refl)) refl
  lookup-source_string names hologram_client =
      rw (names message_source_name 2 "HOLOGRAM_CLIENT" (unfold name_of in refl)) refl
  lookup-source_string names hologram_cli =
      rw (names message_source_name 3 "HOLOGRAM_CLI" (unfold name_of in refl)) refl

  lookup-request_response_string :
      ((names : Names) (n : ℕ) (name : String)
        → name_of n names ≡ some name
        → enum_name names n ≡ name)
      → (x : RequestResponse)
      → lookup (request_response_string x) ping_request_response_value
        ≡ some (request_response_number x)
  unfolding request_response_string request_response_number lookup
  lookup-request_response_string names request =
      rw (names ping_request_response_name 1 "REQUEST" (unfold name_of in refl)) refl
  lookup-request_response_string names response =
      rw (names ping_request_response_name 2 "RESPONSE" (unfold name_of in refl)) refl
