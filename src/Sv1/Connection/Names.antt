-- ===== src/Sv1/Connection/Names.antt =====
-- The names that a client writes, as their bytes.
use datum_rs.Common.{ℕ, List, [], ◌∷◌, if◌then◌else◌}
use datum_rs.ShareRelay.Jobs.{same_bytes}
use datum_rs.Sv1.Connection.{
  Extension, version_rolling, minimum_difficulty, subscribe_extranonce, other_extension, Method,
  configure, subscribe, authorize, submit, suggest_difficulty, other_method,
}

-- "version-rolling".
abbrev pub version_rolling_key : List ℕ
version_rolling_key =
    118 ∷ 101 ∷ 114 ∷ 115 ∷ 105 ∷ 111 ∷ 110 ∷ 45 ∷ 114 ∷ 111 ∷ 108 ∷ 108 ∷ 105 ∷ 110 ∷ 103 ∷ []

-- "minimum-difficulty".
abbrev pub minimum_difficulty_key : List ℕ
minimum_difficulty_key =
    109 ∷ 105 ∷ 110 ∷ 105 ∷ 109 ∷ 117 ∷ 109 ∷ 45 ∷ 100 ∷ 105 ∷ 102 ∷ 102 ∷ 105 ∷ 99 ∷ 117 ∷ 108
    ∷ 116 ∷ 121 ∷ []

-- "subscribe-extranonce".
abbrev subscribe_extranonce_key : List ℕ
subscribe_extranonce_key =
    115 ∷ 117 ∷ 98 ∷ 115 ∷ 99 ∷ 114 ∷ 105 ∷ 98 ∷ 101 ∷ 45 ∷ 101 ∷ 120 ∷ 116 ∷ 114 ∷ 97 ∷ 110 ∷ 111
    ∷ 110 ∷ 99 ∷ 101 ∷ []

-- "version-rolling.mask".
abbrev pub version_rolling_mask_key : List ℕ
version_rolling_mask_key =
    118 ∷ 101 ∷ 114 ∷ 115 ∷ 105 ∷ 111 ∷ 110 ∷ 45 ∷ 114 ∷ 111 ∷ 108 ∷ 108 ∷ 105 ∷ 110 ∷ 103 ∷ 46
    ∷ 109 ∷ 97 ∷ 115 ∷ 107 ∷ []

-- "mining.configure".
abbrev pub configure_name : List ℕ
configure_name =
    109 ∷ 105 ∷ 110 ∷ 105 ∷ 110 ∷ 103 ∷ 46 ∷ 99 ∷ 111 ∷ 110 ∷ 102 ∷ 105 ∷ 103 ∷ 117 ∷ 114 ∷ 101 ∷ []

-- "mining.subscribe".
abbrev pub subscribe_name : List ℕ
subscribe_name =
    109 ∷ 105 ∷ 110 ∷ 105 ∷ 110 ∷ 103 ∷ 46 ∷ 115 ∷ 117 ∷ 98 ∷ 115 ∷ 99 ∷ 114 ∷ 105 ∷ 98 ∷ 101 ∷ []

-- "mining.authorize".
abbrev pub authorize_name : List ℕ
authorize_name =
    109 ∷ 105 ∷ 110 ∷ 105 ∷ 110 ∷ 103 ∷ 46 ∷ 97 ∷ 117 ∷ 116 ∷ 104 ∷ 111 ∷ 114 ∷ 105 ∷ 122 ∷ 101 ∷ []

-- "mining.submit".
abbrev pub submit_name : List ℕ
submit_name = 109 ∷ 105 ∷ 110 ∷ 105 ∷ 110 ∷ 103 ∷ 46 ∷ 115 ∷ 117 ∷ 98 ∷ 109 ∷ 105 ∷ 116 ∷ []

-- "mining.suggest_difficulty".
abbrev suggest_difficulty_name : List ℕ
suggest_difficulty_name =
    109 ∷ 105 ∷ 110 ∷ 105 ∷ 110 ∷ 103 ∷ 46 ∷ 115 ∷ 117 ∷ 103 ∷ 103 ∷ 101 ∷ 115 ∷ 116 ∷ 95 ∷ 100
    ∷ 105 ∷ 102 ∷ 102 ∷ 105 ∷ 99 ∷ 117 ∷ 108 ∷ 116 ∷ 121 ∷ []

abbrev pub extension_of : List ℕ → Extension
extension_of name =
    if same_bytes name version_rolling_key
    then version_rolling
    else if same_bytes name minimum_difficulty_key
    then minimum_difficulty
    else if same_bytes name subscribe_extranonce_key
    then subscribe_extranonce
    else other_extension

abbrev pub method_of : List ℕ → Method
method_of name =
    if same_bytes name configure_name
    then configure
    else if same_bytes name subscribe_name
    then subscribe
    else if same_bytes name authorize_name
    then authorize
    else if same_bytes name submit_name
    then submit
    else if same_bytes name suggest_difficulty_name
    then suggest_difficulty
    else other_method name
