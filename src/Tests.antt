-- ===== src/Tests.antt =====
-- Instances of the interfaces, and each theorem at an input that meets its hypotheses.
mod Library
mod Media
mod Ports
mod Decoder
mod Calls
mod Incoming
mod Socket
mod Farewell
mod Offering
mod Cli
mod Offer
mod Keys
mod MediaLib
mod Rtp
mod Ongoing
mod Manager
mod Codecs
mod Peer
mod Playback
