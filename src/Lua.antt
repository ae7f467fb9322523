-- ===== src/Lua.antt =====
-- pkg/extension/luahost, which runs the handlers of a script in Lua states.
pub mod Pool
