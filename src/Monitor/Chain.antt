-- ===== src/Monitor/Chain.antt =====
-- The chain settings and the confirmation counts of the monitor, which the source hard-codes.
use zabypay_core.Prelude.{
  ℤ, pos, String, Bool, Option, none, some, ◌&&◌, ◌||◌, str_eq, if◌then◌else◌,
}

pub record ChainConfig : Type 0 where
  pub network : String
  pub finality_confirmations : ℤ
  pub rpc_url : String

-- The arm `(network, environment) => …` that applies.
abbrev is_chain : String → String → String → String → Bool
is_chain network environment n e = str_eq network n && str_eq environment e

unfoldable pub finality_and_url : String → String → ℤ × String
finality_and_url n e =
    if is_chain n e "eth" "mainnet"
    then (pos 12, "https://eth-mainnet.g.alchemy.com/v2/your-api-key")
    else if is_chain n e "eth" "testnet"
    then (pos 6, "https://eth-sepolia.g.alchemy.com/v2/your-api-key")
    else if is_chain n e "bnb" "mainnet"
    then (pos 15, "https://bsc-dataseed.binance.org")
    else if is_chain n e "bnb" "testnet"
    then (pos 10, "https://data-seed-prebsc-1-s1.binance.org:8545")
    else if is_chain n e "sol" "mainnet"
    then (pos 32, "https://api.mainnet-beta.solana.com")
    else if is_chain n e "sol" "testnet"
    then (pos 10, "https://api.testnet.solana.com")
    else if is_chain n e "btc" "mainnet"
    then (pos 6, "https://bitcoin-mainnet-rpc-url")
    else if is_chain n e "btc" "testnet"
    then (pos 3, "https://bitcoin-testnet-rpc-url")
    else (pos 12, "https://default-rpc-url")

unfoldable pub get_chain_config : String → String → ChainConfig
unfolding finality_and_url
get_chain_config network environment = record {
  network = network;
  finality_confirmations = (finality_and_url network environment).0;
  rpc_url = (finality_and_url network environment).1;
}

-- The counts that the source returns in place of a call to the chain.
unfoldable pub check_blockchain_confirmations : String → String → Option ℤ
check_blockchain_confirmations tx_hash network =
    if str_eq network "sol"
    then some (pos 32)
    else if str_eq network "eth" || str_eq network "bnb"
    then some (pos 15)
    else if str_eq network "btc"
    then some (pos 6)
    else none
