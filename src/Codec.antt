-- ===== src/Codec.antt =====
-- The text encodings that packages/typescript/src/index.ts takes from `Buffer` and from regular
-- expressions.
pub mod Base64Url
pub mod Hex
pub mod Utf8
pub mod Split
