-- ===== src/Wire.antt =====
-- The protobuf code of x/stablecoin/types (the *.pb.go files): the encoding and decoding of every
-- message. The generated files repeat one text for each message; what they share is written once.
pub mod Bits
pub mod Result
pub mod Varint
pub mod Buffer
pub mod Settles
pub mod Decode
pub mod Message
pub mod Params
pub mod Total
pub mod MsgMint
pub mod MsgBurn
pub mod MsgUpdateParams
pub mod GenesisState
pub mod ModuleConfig
pub mod QueryParamsResponse
pub mod Messages
