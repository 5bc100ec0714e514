-- ===== src/Common/Programs.antt =====
-- `src/your_venue/common/programs.rs`: the addresses of the token programs, which the source
-- writes in base 58, by their bytes; and the default address, all zeros.
use overpass_titan_venue.Base.{[], ◌∷◌, Pubkey}

abbrev pub spl_token_program_id : Pubkey
spl_token_program_id =
    6 ∷ 221 ∷ 246 ∷ 225 ∷ 215 ∷ 101 ∷ 161 ∷ 147 ∷ 217 ∷ 203 ∷ 225 ∷ 70 ∷ 206 ∷ 235 ∷ 121 ∷ 172 ∷ 28
    ∷ 180 ∷ 133 ∷ 237 ∷ 95 ∷ 91 ∷ 55 ∷ 145 ∷ 58 ∷ 140 ∷ 245 ∷ 133 ∷ 126 ∷ 255 ∷ 0 ∷ 169 ∷ []

abbrev pub token_2022_program_id : Pubkey
token_2022_program_id =
    6 ∷ 221 ∷ 246 ∷ 225 ∷ 238 ∷ 117 ∷ 143 ∷ 222 ∷ 24 ∷ 66 ∷ 93 ∷ 188 ∷ 228 ∷ 108 ∷ 205 ∷ 218 ∷ 182
    ∷ 26 ∷ 252 ∷ 77 ∷ 131 ∷ 185 ∷ 13 ∷ 39 ∷ 254 ∷ 189 ∷ 249 ∷ 40 ∷ 216 ∷ 161 ∷ 139 ∷ 252 ∷ []

abbrev pub default_pubkey : Pubkey
default_pubkey =
    0 ∷ 0 ∷ 0 ∷ 0 ∷ 0 ∷ 0 ∷ 0 ∷ 0 ∷ 0 ∷ 0 ∷ 0 ∷ 0 ∷ 0 ∷ 0 ∷ 0 ∷ 0 ∷ 0 ∷ 0 ∷ 0 ∷ 0 ∷ 0 ∷ 0 ∷ 0 ∷ 0
    ∷ 0 ∷ 0 ∷ 0 ∷ 0 ∷ 0 ∷ 0 ∷ 0 ∷ 0 ∷ []
