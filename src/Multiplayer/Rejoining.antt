-- ===== src/Multiplayer/Rejoining.antt =====
-- A client that joins again: Broker.Join and Broker.Get of internal/multiplayer/broker.go.
use varkiv.Multiplayer.Model.{Broker}
use varkiv.Multiplayer.Broker.{Outcome}
